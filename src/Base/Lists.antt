-- ===== src/Base/Lists.antt =====
-- Lists measured and indexed by native numbers, under the library's names.
use Prim.Native.Nat.{ℕ, zero, suc, ◌+◌}
use mathlib.Core.Path.{◌≡◌, refl, ap}
use mathlib.Core.Logic.{◌≢◌}
use mathlib.Core.List.{List, [], ◌∷◌, ◌++◌}
use mathlib.Core.Option.{Option, none, some}
use mathlib.Core.Bool.{Bool, false, ◌||◌}
use csklub_os.Base.Tests.{◌==◌}
use native.Mathlib.Omega.{arith}

module _ {ℓ} {A : Type ℓ} where
  abbrev pub length : List A → ℕ
  length [] = 0
  length (x ∷ xs) = suc (length xs)

  abbrev pub get_elem? : List A → ℕ → Option A
  get_elem? [] i = none
  get_elem? (x ∷ xs) zero = some x
  get_elem? (x ∷ xs) (suc i) = get_elem? xs i

  -- A write out of bounds changes nothing.
  abbrev pub set : List A → ℕ → A → List A
  set [] i v = []
  set (x ∷ xs) zero v = v ∷ xs
  set (x ∷ xs) (suc i) v = x ∷ set xs i v

  -- A change of one element.
  abbrev pub modify : (A → A) → ℕ → List A → List A
  modify g i [] = []
  modify g zero (x ∷ xs) = g x ∷ xs
  modify g (suc i) (x ∷ xs) = x ∷ modify g i xs

  abbrev pub take : ℕ → List A → List A
  take zero xs = []
  take (suc n) [] = []
  take (suc n) (x ∷ xs) = x ∷ take n xs

  abbrev pub drop : ℕ → List A → List A
  drop zero xs = xs
  drop (suc n) [] = []
  drop (suc n) (x ∷ xs) = drop n xs

  -- `P` of every element, with tuples that the tactics read.
  abbrev pub All {κ} : (A → Type κ) → List A → Type κ
  All P [] = Unit
  All P (x ∷ xs) = P x × All P xs

  pub length-append : (xs ys : List A) → length (xs ++ ys) ≡ length xs + length ys
  length-append [] ys = omega arith
  length-append (x ∷ xs) ys = omega (arith, length-append xs ys)

  pub take-append-drop : (n : ℕ) (xs : List A) → take n xs ++ drop n xs ≡ xs
  take-append-drop zero xs = refl
  take-append-drop (suc n) [] = refl
  take-append-drop (suc n) (x ∷ xs) = ap (◌∷◌ x) (take-append-drop n xs)

  pub length-set : (xs : List A) (i : ℕ) (v : A) → length (set xs i v) ≡ length xs
  length-set [] i v = refl
  length-set (x ∷ xs) zero v = refl
  length-set (x ∷ xs) (suc i) v = ap suc (length-set xs i v)

  pub get-set :
      (xs : List A) (i : ℕ) (x y : A) → get_elem? xs i ≡ some x → get_elem? (set xs i y) i ≡ some y
  get-set [] i x y h = absurd (cc h)
  get-set (z ∷ xs) zero x y h = refl
  get-set (z ∷ xs) (suc i) x y h = get-set xs i x y h

  pub get-set_ne :
      (xs : List A) (i j : ℕ) (y : A) → i ≢ j → get_elem? (set xs i y) j ≡ get_elem? xs j
  get-set_ne [] i j y h = refl
  get-set_ne (z ∷ xs) zero zero y h = absurd (h refl)
  get-set_ne (z ∷ xs) zero (suc j) y h = refl
  get-set_ne (z ∷ xs) (suc i) zero y h = refl
  get-set_ne (z ∷ xs) (suc i) (suc j) y h = get-set_ne xs i j y (λ e. h (ap suc e))

  pub set-set : (xs : List A) (i : ℕ) (x y : A) → set (set xs i x) i y ≡ set xs i y
  set-set [] i x y = refl
  set-set (z ∷ xs) zero x y = refl
  set-set (z ∷ xs) (suc i) x y = ap (◌∷◌ z) (set-set xs i x y)

  pub set_same : (xs : List A) (i : ℕ) (x : A) → get_elem? xs i ≡ some x → set xs i x ≡ xs
  set_same [] i x h = refl
  set_same (z ∷ xs) zero x h = cc h
  set_same (z ∷ xs) (suc i) x h = ap (◌∷◌ z) (set_same xs i x h)

  pub set-set_comm :
      (xs : List A) (i j : ℕ) (x y : A) → i ≢ j → set (set xs i x) j y ≡ set (set xs j y) i x
  set-set_comm [] i j x y h = refl
  set-set_comm (z ∷ xs) zero zero x y h = absurd (h refl)
  set-set_comm (z ∷ xs) zero (suc j) x y h = refl
  set-set_comm (z ∷ xs) (suc i) zero x y h = refl
  set-set_comm (z ∷ xs) (suc i) (suc j) x y h =
      ap (◌∷◌ z) (set-set_comm xs i j x y (λ e. h (ap suc e)))

-- Is the number in the list?
unfoldable pub mem : ℕ → List ℕ → Bool
mem b [] = false
mem b (c ∷ cs) = b == c || mem b cs

pub All-map {ℓ κ κ'} :
    {A : Type ℓ} (P : A → Type κ) (Q : A → Type κ') (xs : List A)
    → ((x : A) → P x → Q x)
    → All P xs
    → All Q xs
All-map P Q [] f h = tt
All-map P Q (x ∷ xs) f h = (f x h.0, All-map P Q xs f h.1)
