-- ===== src/Ulib/Number.antt =====
-- Reading a number that was printed.
use csklub_os.Base.{
  ℕ, zero, suc, ◌+◌, ◌^◌, ◌<◌, ◌≡◌, refl, ◌∙◌, ap, arith, true, false, ◌&&◌, List, [], ◌∷◌, ◌++◌,
  length, length-append, All, some, leb,
}
use csklub_os.Memory.{Memory}
use csklub_os.Print.{unwind, user_printint, upper_digit, put_sign}
use csklub_os.Print.Digits.{IsDigit, value, ten_to, digits_loop-Decimal, upper_digit-IsTable}
use csklub_os.Ulib.{add_digit, atoi_loop, atoi}

-- The characters of the list stand in memory from `s` on.
unfoldable pub Holds : Memory → ℕ → List ℕ → Type 0
Holds m s [] = Unit {0}
Holds m s (c ∷ cs) = (m s ≡ c) × Holds m (s + 1) cs

-- The number that `atoi` has read after these digits.
read_digits : ℕ → List ℕ → ℕ
read_digits n [] = n
read_digits n (c ∷ cs) = read_digits (add_digit n c) cs

read_digits-append :
    (n : ℕ) (cs : List ℕ) (c : ℕ) → read_digits n (cs ++ c ∷ []) ≡ add_digit (read_digits n cs) c
unfolding read_digits
read_digits-append n [] c = refl
read_digits-append n (x ∷ cs) c = read_digits-append (add_digit n x) cs c

read_digits-unwind :
    (ds : List ℕ) → All IsDigit ds → value ds < 2 ^ 32 → read_digits 0 (unwind ds) ≡ value ds
unfolding unwind value read_digits add_digit
read_digits-unwind [] h lt = refl
read_digits-unwind (d ∷ ds) h lt =
    let ih = read_digits-unwind ds h.1 (omega (arith, lt)) in
    read_digits-append 0 (unwind ds) d ∙ ap (λ n. add_digit n d) ih ∙ omega (arith, lt, h.0)

unwind-IsDigit : (ds : List ℕ) → All IsDigit ds → All IsDigit (unwind ds)
unfolding unwind
unwind-IsDigit [] h = tt
unwind-IsDigit (d ∷ ds) h = back (unwind ds) (unwind-IsDigit ds h.1) h.0
  where
    back : (cs : List ℕ) → All IsDigit cs → IsDigit d → All IsDigit (cs ++ d ∷ [])
    back [] h p = (p, tt)
    back (c ∷ cs) h p = (h.0, back cs h.1 p)

length-unwind : (ds : List ℕ) → length (unwind ds) ≡ length ds
unfolding unwind
length-unwind [] = refl
length-unwind (d ∷ ds) = omega (arith, length-unwind ds, length-append (unwind ds) (d ∷ []))

atoi_loop-read :
    (fuel : ℕ) (m : Memory) (s n : ℕ) (cs : List ℕ)
    → length cs < fuel
    → All IsDigit cs
    → Holds m s cs
    → (leb 48 (m (s + length cs)) && leb (m (s + length cs)) 57) ≡ false
    → atoi_loop fuel m s n ≡ some (read_digits n cs)
unfolding atoi_loop read_digits Holds
atoi_loop-read zero m s n cs lt h p e = absurd (omega (arith, lt))
atoi_loop-read (suc fuel) m s n [] lt h p e =
    let here : (leb 48 (m s) && leb (m s) 57) ≡ false =
      ap (λ a. leb 48 (m a) && leb (m a) 57) (omega arith) ∙ e in
    rw (atoi_loop, here) refl
atoi_loop-read (suc fuel) m s n (c ∷ cs) lt h p e =
    let digit : (leb 48 (m s) && leb (m s) 57) ≡ true = ground (arith, p.0, h.0) in
    rw (atoi_loop, digit)
      (atoi_loop-read fuel m (s + 1) (add_digit n (m s)) cs (omega (arith, lt)) h.1 p.1
          (ap (λ a. leb 48 (m a) && leb (m a) 57) (omega arith) ∙ e)
        ∙ ap (λ u. some (read_digits (add_digit n u) cs)) p.0)

-- `atoi` reads back what `%d` of the user library prints: a number that is not negative, if what
-- follows it in memory is no digit.
pub atoi-user_printint :
    (x : ℕ) (m : Memory) (s : ℕ)
    → x < 2 ^ 31
    → (buf : List ℕ) × (user_printint 10 x 10 true ≡ some buf)
      × (Holds m s (unwind buf)
          → (leb 48 (m (s + length buf)) && leb (m (s + length buf)) 57) ≡ false
          → atoi 11 m s ≡ some x)
unfolding user_printint put_sign ten_to atoi
atoi-user_printint x m s lt =
    let plain : leb (2 ^ 31) x ≡ false = ground (arith, lt) in
    let (ds, e, h) =
      digits_loop-Decimal upper_digit 10 x upper_digit-IsTable (omega (arith, lt)) (omega arith) in
    let short = (h.size 9).1 (omega (arith, lt)) in
    (
      ds,
      rw (user_printint, plain, e) refl,
      λ p end.
          atoi_loop-read 11 m s 0 (unwind ds) (omega (arith, short, length-unwind ds))
            (unwind-IsDigit ds h.digits) p
            (ap (λ k. leb 48 (m (s + k)) && leb (m (s + k)) 57) (length-unwind ds) ∙ end)
          ∙ ap some (read_digits-unwind ds h.digits (omega (arith, h.stands, lt)) ∙ h.stands),
    )
