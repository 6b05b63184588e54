-- ===== src/Print.antt =====
-- operating_system_engineering/labs/kernel/printf.c and user/printf.c: how numbers are printed. A
-- number is given by its bit pattern. The array `buf` is the list of the characters that were written
-- to it, the first at index 0; it has room for 16. `none` means that the fuel of a loop ran out.
pub mod Digits
pub mod Size
pub mod Format
pub mod Agree
mod Tests
use csklub_os.Base.{
  ℕ, zero, suc, ◌+◌, ◌-◌, ◌*◌, ◌/◌, ◌%◌, ◌^◌, Bool, false, ◌&&◌, List, [], ◌∷◌, ◌++◌, Option, none,
  some, ltb, leb, ◌==◌, if◌then◌else◌,
}

-- The size of `buf`.
abbrev pub buf_size : ℕ
buf_size = 16

-- `digits[d]`, in the kernel and in the user library.
unfoldable pub lower_digit : ℕ → ℕ
lower_digit d = if ltb d 10 then 48 + d else 87 + d

unfoldable pub upper_digit : ℕ → ℕ
upper_digit d = if ltb d 10 then 48 + d else 55 + d

-- `do { buf[i++] = digits[x % base]; } while((x /= base) != 0);`
unfoldable pub digits_loop : (ℕ → ℕ) → ℕ → ℕ → ℕ → Option (List ℕ)
digits_loop digit base zero x = none
digits_loop digit base (suc fuel) x =
    let rest = digits_loop digit base fuel (x / base) in
    if x / base == 0
    then some (digit (x % base) ∷ [])
    else elim rest [ none ↦ none | some ds ↦ some (digit (x % base) ∷ ds) ]

-- `if(sign) buf[i++] = '-';`
unfoldable pub put_sign : Bool → Option (List ℕ) → Option (List ℕ)
put_sign neg o = elim o [ none ↦ none | some ds ↦ some (if neg then ds ++ 45 ∷ [] else ds) ]

-- `while(--i >= 0) consputc(buf[i]);`
unfoldable pub unwind : List ℕ → List ℕ
unwind [] = []
unwind (d ∷ ds) = unwind ds ++ d ∷ []

-- What the kernel's `printint` writes to `buf`.
unfoldable pub printint : ℕ → ℕ → ℕ → Bool → Option (List ℕ)
printint fuel xx base sign =
    let neg = sign && leb (2 ^ 63) xx in
    put_sign neg (digits_loop lower_digit base fuel (if neg then (2 ^ 64 - xx) % 2 ^ 64 else xx))

-- What the user library's does: its number is an `int`.
unfoldable pub user_printint : ℕ → ℕ → ℕ → Bool → Option (List ℕ)
user_printint fuel xx base sgn =
    let neg = sgn && leb (2 ^ 31) xx in
    put_sign neg (digits_loop upper_digit base fuel (if neg then (2 ^ 32 - xx) % 2 ^ 32 else xx))

-- `printf("%lu", x)` and `printf("%lx", x)` of the user library: the argument, a `uint64`, becomes
-- an `int`.
unfoldable pub user_print_long : ℕ → ℕ → ℕ → Option (List ℕ)
unfolding user_printint
user_print_long fuel x base = user_printint fuel (x % 2 ^ 32) base false

-- `for (i = 0; i < (sizeof(uint64) * 2); i++, x <<= 4)`, with `left` rounds to go.
unfoldable pub hex_loop : ℕ → ℕ → List ℕ
unfolding lower_digit
hex_loop zero x = []
hex_loop (suc left) x = lower_digit (x / 2 ^ 60) ∷ hex_loop left (x * 16 % 2 ^ 64)

-- What the kernel's `printptr` sends.
unfoldable pub printptr : ℕ → List ℕ
unfolding hex_loop
printptr x = 48 ∷ 120 ∷ hex_loop 16 x
