-- ===== src/Console/Typed.antt =====
-- `consoleintr` as an editor of one line.
use csklub_os.Base.{
  ℕ, zero, suc, ◌+◌, ◌%◌, ◌^◌, ◌≤◌, ◌<◌, ◌≡◌, ◌≢◌, refl, sym, subst, ◌∙◌, ap, ap₂, arith, true,
  false, ◌||◌, ◌&&◌, List, [], ◌∷◌, ◌++◌, length, length-append, All, ltb, ◌==◌, ◌!=◌, ne→==,
  if◌then◌else◌, Bool-cases, inl, inr,
}
use csklub_os.Console.{
  Console, input_size, newline, carriage_return, control, take_back, kill_line, store_input, accept,
  consoleintr,
}
use csklub_os.Console.Window.{window, length-window}
use csklub_os.Console.Edit.{
  span, ready, line, IsConsole, drop_last, drop_last-append, All-front, All-back, store_input-ready,
  store_input-line, window-all, take_back-line, take_back-IsConsole,
}

-- Complete lines, and the line that is edited.
pub record Text : Type 0 where
  pub lines : List ℕ
  pub edited : List ℕ

abbrev pub text : Console → Text
text k = record { lines = ready k; edited = line k }

-- A character is added. It completes the line if it is a newline or ^D, or if the buffer is full.
unfoldable pub add : ℕ → Text → Text
add c t =
    let longer = t.edited ++ c ∷ [] in
    if c == newline || c == control 68 || length t.lines + length longer == input_size
    then record { lines = t.lines ++ longer; edited = [] }
    else record { lines = t.lines; edited = longer }

-- ^P changes nothing, ^U drops the line, ^H and delete its last character; NUL and what does not
-- fit are ignored, and a carriage return counts as a newline.
unfoldable pub typed : ℕ → Text → Text
unfolding add
typed c t =
    if c == control 80
    then t
    else if c == control 85
    then record t { edited = [] }
    else if c == control 72 || c == 0x7f
    then record t { edited = drop_last t.edited }
    else if c != 0 && ltb (length t.lines + length t.edited) input_size
    then add (if c == carriage_return then newline else c) t
    else t

-- A step of the console does this step of the text, and leaves the console well-formed.
abbrev pub Does : Console → Text → Type 0
Does k t = (text k ≡ t) × IsConsole k

kill_line-all :
    (left : ℕ) (k : Console)
    → IsConsole k
    → left ≡ span k.w k.e
    → (kill_line left k).0 ≡ record k { e = k.w }
unfolding kill_line
kill_line-all zero k i e = let p : k.e ≡ k.w = omega (arith, e, i) in λ j. record k { e = p j }
kill_line-all (suc left) k i e =
    let ne : (k.e == k.w) ≡ false = ne→== k.e k.w (λ q. omega (arith, q, e, i)) in
    let last =
      (All-front (λ c. c ≢ newline) (line (take_back k)) (k.buf (span 1 k.e % input_size))
        (subst (All (λ c. c ≢ newline)) (take_back-line k i ne) i.one_line)).1 in
    let differs : (k.buf (span 1 k.e % input_size) != newline) ≡ true = ground (arith, last) in
    rw (kill_line, differs)
      (kill_line-all left (take_back k) (take_back-IsConsole k i ne) (ground (arith, e, i, ne)))

kill_line-Does :
    (k : Console)
    → IsConsole k
    → Does (kill_line (span k.w k.e) k).0 (record (text k) { edited = [] })
kill_line-Does k i =
    subst (λ q. Does q (record (text k) { edited = [] }))
      (sym (kill_line-all (span k.w k.e) k i refl))
      (
        ap (λ n. record { lines = ready k; edited = window k.buf k.w n }) none_left,
        record {
          small_r = i.small_r;
          small_w = i.small_w;
          small_e = i.small_w;
          fits = omega (arith, none_left, i);
          one_line = subst (λ n. All (λ c. c ≢ newline) (window k.buf k.w n)) (sym none_left) tt;
        },
      )
  where
    none_left : span k.w k.w ≡ 0
    none_left = omega arith

take_back-Does :
    (k : Console)
    → IsConsole k
    → (k.e == k.w) ≡ false
    → Does (take_back k) (record (text k) { edited = drop_last (line k) })
unfolding take_back
take_back-Does k i ne = (
  ap (λ l. record { lines = ready k; edited = l })
      (sym (drop_last-append (line (take_back k)) (k.buf (span 1 k.e % input_size)))
        ∙ ap drop_last (sym (take_back-line k i ne))),
  take_back-IsConsole k i ne,
)

-- An empty line has nothing to delete.
empty-Does :
    (k : Console)
    → IsConsole k
    → (k.e == k.w) ≡ true
    → Does k (record (text k) { edited = drop_last (line k) })
unfolding drop_last
empty-Does k i same =
    let z : span k.w k.e ≡ 0 = ground (arith, same) in
    (
      ap (λ n. record { lines = ready k; edited = n })
          (ap (window k.buf k.w) z ∙ sym (ap (λ n. drop_last (window k.buf k.w n)) z)),
      i,
    )

-- The character is stored, and completes the line or does not.
module _ (k : Console) (c : ℕ) (i : IsConsole k)
    (room : span k.r k.w + span k.w k.e < input_size) where
  stored : Console
  stored = store_input k c

  longer : line (store_input k c) ≡ line k ++ c ∷ []
  longer = store_input-line k c i room

  fits_still : span k.r k.w + span k.w (store_input k c).e ≤ input_size
  unfolding store_input
  fits_still = omega (arith, i, room)

  stored_small : (store_input k c).e < 2 ^ 32
  unfolding store_input
  stored_small = omega arith

  part-Does :
      c ≢ newline → Does (store_input k c) (record { lines = ready k; edited = line k ++ c ∷ [] })
  unfolding store_input
  part-Does ne = (
    ap₂ (λ l e. record { lines = l; edited = e }) (store_input-ready k c i room) longer,
    record {
      small_r = i.small_r;
      small_w = i.small_w;
      small_e = stored_small;
      fits = fits_still;
      one_line =
          subst (All (λ x. x ≢ newline)) (sym longer)
            (All-back (λ x. x ≢ newline) (line k) c i.one_line ne);
    },
  )

  whole-Does :
      Does
        (record (store_input k c) { w = (store_input k c).e })
        (record { lines = ready k ++ (line k ++ c ∷ []); edited = [] })
  unfolding store_input
  whole-Does =
      let k1 = store_input k c in
      let done : span k1.e k1.e ≡ 0 = omega arith in
      (
        ap₂ (λ l e. record { lines = l; edited = e })
            (window-all k1.buf k.r k.w k1.e i.small_r i.small_w stored_small fits_still
              ∙ ap₂ (◌++◌) (store_input-ready k c i room) longer)
            (ap (window k1.buf k1.e) done),
        record {
          small_r = i.small_r;
          small_w = stored_small;
          small_e = stored_small;
          fits = omega (arith, i, fits_still, room);
          one_line = subst (λ n. All (λ x. x ≢ newline) (window k1.buf k1.e n)) (sym done) tt;
        },
      )

  -- The buffer is full exactly if the text is.
  full-text : span k.r (store_input k c).e ≡ length (ready k) + length (line k ++ c ∷ [])
  unfolding store_input
  full-text = omega (
    arith,
    i,
    room,
    length-window k.buf k.r (span k.r k.w),
    length-window k.buf k.w (span k.w k.e),
    length-append (line k) (c ∷ []),
  )

-- What `accept` does with the character that it stores.
accept-stored :
    (k : Console) (c c1 : ℕ)
    → c1 ≡ (if c == carriage_return then newline else c)
    → (accept c k).console ≡ (
        if c1 == newline || c1 == control 68 || span k.r (store_input k c1).e == input_size
        then record (store_input k c1) { w = (store_input k c1).e }
        else store_input k c1)
unfolding accept store_input
accept-stored k c c1 e = ground (arith, e)

accept-Does :
    (k : Console) (c c1 : ℕ)
    → IsConsole k
    → span k.r k.w + span k.w k.e < input_size
    → c1 ≡ (if c == carriage_return then newline else c)
    → Does (accept c k).console (add c1 (text k))
unfolding add store_input
accept-Does k c c1 i room e =
    subst (λ q. Does q (add c1 (text k))) (sym (accept-stored k c c1 e))
      (rw (add, sym (full-text k c1 i room))
        (elim (Bool-cases
          (c1 == newline || c1 == control 68 || span k.r (store_input k c1).e == input_size)) [
            | inl whole ↦ rw whole (whole-Does k c1 i room)
            | inr part ↦ rw part (part-Does k c1 i room (ground (arith, part)))
          ]))

-- `consoleintr` edits the text as `typed` says, and leaves the console well-formed: complete lines
-- are never changed, and at most INPUT_BUF_SIZE characters are held.
pub consoleintr-typed :
    (c : ℕ) (k : Console)
    → IsConsole k
    → (text (consoleintr c k).console ≡ typed c (text k)) × IsConsole (consoleintr c k).console
unfolding consoleintr typed
consoleintr-typed c k i = elim (Bool-cases (c == control 80)) [
  | inl p ↦ rw (consoleintr, typed, p) (refl, i)
  | inr p ↦ elim (Bool-cases (c == control 85)) [
    | inl u ↦ rw (consoleintr, typed, p, u) (kill_line-Does k i)
    | inr u ↦ elim (Bool-cases (c == control 72 || c == 0x7f)) [
      | inl h ↦ elim (Bool-cases (k.e == k.w)) [
        | inl none_left ↦
            let e : (k.e != k.w) ≡ false = ground (arith, none_left) in
            rw (consoleintr, typed, p, u, h, e) (empty-Does k i none_left)
        | inr some_left ↦
            let e : (k.e != k.w) ≡ true = ground (arith, some_left) in
            rw (consoleintr, typed, p, u, h, e) (take_back-Does k i some_left)
      ]
      | inr h ↦ elim (Bool-cases (c != 0 && ltb (span k.r k.e) input_size)) [
        | inl fits ↦
            rw (consoleintr, typed, p, u, h, held, fits)
              (accept-Does k c (if c == carriage_return then newline else c) i
                (ground (arith, fits, held, total)) refl)
        | inr full ↦ rw (consoleintr, typed, p, u, h, held, full) (refl, i)
      ]
    ]
  ]
]
  where
    total : span k.r k.e ≡ span k.r k.w + span k.w k.e
    total = omega (arith, i)

    held : length (ready k) + length (line k) ≡ span k.r k.e
    held =
        omega
          (arith, i, length-window k.buf k.r (span k.r k.w), length-window k.buf k.w (span k.w k.e))
