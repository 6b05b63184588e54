-- ===== src/Print/Format.antt =====
-- kernel/printf.c, `printf`, and user/printf.c, `vprintf`: the loops over the format, as the calls that
-- they make, in order. The call that takes an argument takes the next one. `#if 0` code is left out.
-- Nothing counts the loops, so they have fuel, and `none` means that it ran out.
use csklub_os.Base.{
  ℕ, zero, suc, ◌+◌, Bool, true, false, ◌&&◌, List, [], ◌∷◌, ◌++◌, Option, none, some, ◌==◌,
  if◌then◌else◌,
}
use csklub_os.Memory.{Memory}

pub data Call : Type 0 where
  -- `consputc`, or `putc`.
  send : ℕ → Call
  -- `printint` of the next argument, fetched as an `int`, or as a `uint64` if the first field is true, with
  -- the base and the sign. The user library's takes an `int`, and so drops the upper half of a `uint64`.
  number : Bool → ℕ → Bool → Call
  -- `printptr`.
  pointer : Call
  -- The loop over a string.
  text : Call

-- `%`, and the letters of the conversions.
abbrev pub percent : ℕ
percent = 37

abbrev letter_d : ℕ
letter_d = 100

abbrev letter_l : ℕ
letter_l = 108

abbrev letter_p : ℕ
letter_p = 112

abbrev letter_s : ℕ
letter_s = 115

abbrev letter_u : ℕ
letter_u = 117

abbrev letter_x : ℕ
letter_x = 120

-- The kernel's calls for the characters behind `%`, and what is added to `i`.
unfoldable pub conversion : ℕ → ℕ → ℕ → List Call × ℕ
conversion c0 c1 c2 =
    if c0 == letter_d
    then (number false 10 true ∷ [], 0)
    else if c0 == letter_l && c1 == letter_d
    then (number true 10 true ∷ [], 1)
    else if c0 == letter_l && c1 == letter_l && c2 == letter_d
    then (number true 10 true ∷ [], 2)
    else if c0 == letter_u
    then (number false 10 false ∷ [], 0)
    else if c0 == letter_l && c1 == letter_u
    then (number true 10 false ∷ [], 1)
    else if c0 == letter_l && c1 == letter_l && c2 == letter_u
    then (number true 10 false ∷ [], 2)
    else if c0 == letter_x
    then (number false 16 false ∷ [], 0)
    else if c0 == letter_l && c1 == letter_x
    then (number true 16 false ∷ [], 1)
    else if c0 == letter_l && c1 == letter_l && c2 == letter_x
    then (number true 16 false ∷ [], 2)
    else if c0 == letter_p
    then (pointer ∷ [], 0)
    else if c0 == letter_s
    then (text ∷ [], 0)
    else if c0 == percent
    then (send percent ∷ [], 0)
    else (send percent ∷ send c0 ∷ [], 0)

-- The user library's chain of tests.
unfoldable pub user_conversion : ℕ → ℕ → ℕ → List Call × ℕ
user_conversion c0 c1 c2 =
    if c0 == letter_d
    then (number false 10 true ∷ [], 0)
    else if c0 == letter_l && c1 == letter_d
    then (number true 10 true ∷ [], 1)
    else if c0 == letter_l && c1 == letter_l && c2 == letter_d
    then (number true 10 true ∷ [], 2)
    else if c0 == letter_u
    then (number false 10 false ∷ [], 0)
    else if c0 == letter_l && c1 == letter_u
    then (number true 10 false ∷ [], 1)
    else if c0 == letter_l && c1 == letter_l && c2 == letter_u
    then (number true 10 false ∷ [], 2)
    else if c0 == letter_x
    then (number false 16 false ∷ [], 0)
    else if c0 == letter_l && c1 == letter_x
    then (number true 16 false ∷ [], 1)
    else if c0 == letter_l && c1 == letter_l && c2 == letter_x
    then (number true 16 false ∷ [], 2)
    else if c0 == letter_p
    then (pointer ∷ [], 0)
    else if c0 == letter_s
    then (text ∷ [], 0)
    else if c0 == percent
    then (send percent ∷ [], 0)
    else (send percent ∷ send c0 ∷ [], 0)

-- `c1` and `c2`: 0 behind the end.
abbrev pub behind : Memory → ℕ → ℕ → ℕ
behind m c a = if c == 0 then 0 else m a

-- The conversion whose first character stands at `a`.
abbrev pub conversion_at : Memory → ℕ → List Call × ℕ
conversion_at m a = let c1 = behind m (m a) (a + 1) in conversion (m a) c1 (behind m c1 (a + 2))

abbrev pub user_conversion_at : Memory → ℕ → List Call × ℕ
user_conversion_at m a =
    let c1 = behind m (m a) (a + 1) in user_conversion (m a) c1 (behind m c1 (a + 2))

abbrev pub calls_then : List Call → Option (List Call) → Option (List Call)
calls_then cs o = elim o [ none ↦ none | some ds ↦ some (cs ++ ds) ]

-- The kernel's loop, from the character at `a` on.
unfoldable pub printf : ℕ → Memory → ℕ → Option (List Call)
printf zero m a = none
printf (suc fuel) m a =
    let r = conversion_at m (a + 1) in
    let plain = printf fuel m (a + 1) in
    let rest = printf fuel m (a + 1 + r.1 + 1) in
    if m a == 0
    then some []
    else if m a == percent
    then (if m (a + 1) == 0 then some [] else calls_then r.0 rest)
    else calls_then (send (m a) ∷ []) plain

-- The user library's loop: `state` tells whether `%` stands before `a`.
unfoldable pub vprintf : ℕ → Memory → ℕ → Bool → Option (List Call)
vprintf zero m a state = none
vprintf (suc fuel) m a state =
    let r = user_conversion_at m a in
    let opened = vprintf fuel m (a + 1) true in
    let plain = vprintf fuel m (a + 1) false in
    let rest = vprintf fuel m (a + r.1 + 1) false in
    if m a == 0
    then some []
    else if state
    then calls_then r.0 rest
    else if m a == percent
    then opened
    else calls_then (send (m a) ∷ []) plain
