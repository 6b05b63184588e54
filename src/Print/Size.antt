-- ===== src/Print/Size.antt =====
-- Whether the digits fit `buf`.
use csklub_os.Base.{
  ℕ, ◌-◌, ◌%◌, ◌^◌, ◌≤◌, ◌<◌, ◌≡◌, ◌↔◌, refl, arith, Bool, true, ◌&&◌, List, [], ◌∷◌, ◌++◌, length,
  length-append, some, ltb, leb, if◌then◌else◌, Bool-cases, inl, inr,
}
use csklub_os.Print.{
  buf_size, lower_digit, upper_digit, put_sign, printint, user_printint, user_print_long,
}
use csklub_os.Print.Digits.{
  ten_to, value, lower_digit-IsTable, upper_digit-IsTable, digits_loop-Decimal,
}

-- The kernel's `printint` of a 64-bit number in base 10 ends, and what it writes fits `buf` exactly
-- if the number has at most 16 digits, or, for a negative one, 15 and the sign.
pub printint-fits :
    (xx : ℕ) (sign : Bool)
    → xx < 2 ^ 64
    → (buf : List ℕ) × (printint 20 xx 10 sign ≡ some buf)
      × ((length buf ≤ buf_size) ↔ (
          (if sign && leb (2 ^ 63) xx then ltb (2 ^ 64 - xx) (10 ^ 15) else ltb xx (10 ^ 16))
          ≡ true))
unfolding printint put_sign ten_to
printint-fits xx sign lt = elim (Bool-cases (sign && leb (2 ^ 63) xx)) [
  | inl neg ↦
      let (ds, e, h) =
        digits_loop-Decimal lower_digit 20 ((2 ^ 64 - xx) % 2 ^ 64) lower_digit-IsTable
          (omega arith) (omega arith) in
      let most : (2 ^ 64 - xx) % 2 ^ 64 ≡ 2 ^ 64 - xx = ground (arith, neg, lt) in
      let long = length-append ds (45 ∷ []) in
      let size = h.size 14 in
      (
        ds ++ 45 ∷ [],
        rw (printint, neg, e) refl,
        rw neg (
          λ le. let r = size.0 (omega (arith, le, long)) in ground (arith, r, most),
          λ small. let r = size.1 (ground (arith, small, most)) in omega (arith, r, long),
        ),
      )
  | inr plain ↦
      let (ds, e, h) =
        digits_loop-Decimal lower_digit 20 xx lower_digit-IsTable (omega (arith, lt))
          (omega arith) in
      let size = h.size 15 in
      (
        ds,
        rw (printint, plain, e) refl,
        rw plain
            (λ le. let r = size.0 le in ground (arith, r), λ small. size.1 (ground (arith, small))),
      )
]

-- The user library's `printint` of an `int` in base 10 ends, and writes at most 11 characters.
pub user_printint-fits :
    (xx : ℕ) (sgn : Bool)
    → xx < 2 ^ 32
    → (buf : List ℕ) × (user_printint 10 xx 10 sgn ≡ some buf) × (length buf ≤ 11)
unfolding user_printint put_sign ten_to
user_printint-fits xx sgn lt = elim (Bool-cases (sgn && leb (2 ^ 31) xx)) [
  | inl neg ↦
      let (ds, e, h) =
        digits_loop-Decimal upper_digit 10 ((2 ^ 32 - xx) % 2 ^ 32) upper_digit-IsTable
          (omega arith) (omega arith) in
      let r = (h.size 9).1 (omega arith) in
      (ds ++ 45 ∷ [], rw (user_printint, neg, e) refl, omega (arith, r, length-append ds (45 ∷ [])))
  | inr plain ↦
      let (ds, e, h) =
        digits_loop-Decimal upper_digit 10 xx upper_digit-IsTable (omega (arith, lt))
          (omega arith) in
      let r = (h.size 9).1 (omega (arith, lt)) in
      (ds, rw (user_printint, plain, e) refl, omega (arith, r))
]

-- `%lu` of the user library ends, and prints the number modulo 2 ^ 32.
pub user_print_long-value :
    (x : ℕ) → (ds : List ℕ) × (user_print_long 10 x 10 ≡ some ds) × (value ds ≡ x % 2 ^ 32)
unfolding user_print_long user_printint put_sign ten_to
user_print_long-value x =
    let (ds, e, h) =
      digits_loop-Decimal upper_digit 10 (x % 2 ^ 32) upper_digit-IsTable (omega arith)
        (omega arith) in
    (ds, rw (user_print_long, e) refl, h.stands)
