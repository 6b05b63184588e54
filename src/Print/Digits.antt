-- ===== src/Print/Digits.antt =====
-- The digits of a number, the lowest first.
use csklub_os.Base.{
  ℕ, zero, suc, ◌+◌, ◌-◌, ◌*◌, ◌/◌, ◌%◌, ◌≤◌, ◌<◌, ◌≡◌, ◌≢◌, ◌↔◌, refl, arith, List, [], ◌∷◌,
  length, All, some, eq→==, ne→==, ℕ_discrete,
}
use csklub_os.Print.{lower_digit, upper_digit, digits_loop}

-- The powers of ten.
unfoldable pub ten_to : ℕ → ℕ
ten_to zero = 1
ten_to (suc n) = 10 * ten_to n

-- What decimal digits stand for.
unfoldable pub value : List ℕ → ℕ
value [] = 0
value (d ∷ ds) = (d - 48) + 10 * value ds

abbrev pub IsDigit : ℕ → Type 0
IsDigit c = (48 ≤ c) × (c ≤ 57)

-- The digits of `x`: they stand for it, and are as few as can be.
pub record Decimal (x : ℕ) (ds : List ℕ) : Type 0 where
  pub digits : All IsDigit ds
  pub stands : value ds ≡ x
  pub size : (n : ℕ) → (length ds ≤ suc n) ↔ (x < ten_to (suc n))

-- A table of digits that has `0` to `9` in their places.
abbrev pub IsTable : (ℕ → ℕ) → Type 0
IsTable digit = (d : ℕ) → d < 10 → digit d ≡ 48 + d

pub lower_digit-IsTable : IsTable lower_digit
unfolding lower_digit
lower_digit-IsTable d lt = ground (arith, lt)

pub upper_digit-IsTable : IsTable upper_digit
unfolding upper_digit
upper_digit-IsTable d lt = ground (arith, lt)

ten_to-positive : (n : ℕ) → 0 < ten_to n
unfolding ten_to
ten_to-positive zero = omega arith
ten_to-positive (suc n) = omega (arith, ten_to-positive n)

one-Decimal : (digit : ℕ → ℕ) (x : ℕ) → IsTable digit → x / 10 ≡ 0 → Decimal x (digit (x % 10) ∷ [])
unfolding value ten_to
one-Decimal digit x t z =
    let e = t (x % 10) (omega arith) in
    record {
      digits = (omega (arith, e), tt);
      stands = omega (arith, e, z);
      size = λ n. (λ _. omega (arith, z, ten_to-positive n), λ _. omega arith);
    }

empty-value : (ds : List ℕ) → length ds ≡ 0 → value ds ≡ 0
unfolding value
empty-value [] e = refl
empty-value (d ∷ ds) e = absurd (omega (arith, e))

-- A number of two digits or more has one more than its tenth.
more-size :
    (x : ℕ) (ds : List ℕ) (n : ℕ)
    → 0 < x / 10
    → Decimal (x / 10) ds
    → (suc (length ds) ≤ suc n) ↔ (x < ten_to (suc n))
unfolding ten_to
more-size x ds zero nz h = (
  λ le. absurd (omega (arith, le, nz, empty-value ds (omega (arith, le)), h.stands)),
  λ lt. absurd (omega (arith, lt, nz)),
)
more-size x ds (suc n) nz h = (
  λ le. let r = (h.size n).0 (omega (arith, le)) in omega (arith, r),
  λ lt. let r = (h.size n).1 (omega (arith, lt)) in omega (arith, r),
)

more-Decimal :
    (digit : ℕ → ℕ) (x : ℕ) (ds : List ℕ)
    → IsTable digit
    → 0 < x / 10
    → Decimal (x / 10) ds
    → Decimal x (digit (x % 10) ∷ ds)
unfolding value ten_to
more-Decimal digit x ds t nz h =
    let e = t (x % 10) (omega arith) in
    record {
      digits = (omega (arith, e), h.digits);
      stands = omega (arith, e, h.stands);
      size = λ n. more-size x ds n nz h;
    }

-- With as much fuel as the number is large, the loop finds the digits.
pub digits_loop-Decimal :
    (digit : ℕ → ℕ) (fuel x : ℕ)
    → IsTable digit
    → x < ten_to fuel
    → 0 < fuel
    → (ds : List ℕ) × (digits_loop digit 10 fuel x ≡ some ds) × Decimal x ds
unfolding digits_loop ten_to
digits_loop-Decimal digit zero x t lt positive = absurd (omega (arith, positive))
digits_loop-Decimal digit (suc fuel) x t lt positive = elim (ℕ_discrete (x / 10) 0) [
  | yes z ↦
      (digit (x % 10) ∷ [], rw (digits_loop, eq→== (x / 10) 0 z) refl, one-Decimal digit x t z)
  | no nz ↦
      let (ds, e, h) =
        digits_loop-Decimal digit fuel (x / 10) t (omega (arith, lt)) (enough fuel lt nz) in
      (
        digit (x % 10) ∷ ds,
        rw (digits_loop, ne→== (x / 10) 0 nz, e) refl,
        more-Decimal digit x ds t (omega (arith, nz)) h,
      )
]
  where
    enough : (fuel : ℕ) → x < 10 * ten_to fuel → x / 10 ≢ 0 → 0 < fuel
    enough zero lt nz = absurd (omega (arith, lt, nz))
    enough (suc n) lt nz = omega arith
