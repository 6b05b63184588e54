-- ===== src/Descriptor/Slots.antt =====
-- The descriptors as a list of references to files.
use csklub_os.Base.{
  ℕ, zero, suc, ◌<◌, ◌≡◌, ◌≢◌, refl, ◌∙◌, ap, arith, List, [], ◌∷◌, ◌++◌, Option, none, some,
  get_elem?, set, Option-cases, inl, inr, subst,
}
use csklub_os.Descriptor.{free_slot}

-- The files that the descriptors stand for.
unfoldable pub held : List (Option ℕ) → List ℕ
held [] = []
held (none ∷ os) = held os
held (some f ∷ os) = f ∷ held os

held-cons : (p : Option ℕ) (os : List (Option ℕ)) → held (p ∷ os) ≡ held (p ∷ []) ++ held os
unfolding held
held-cons none os = refl
held-cons (some f) os = refl

-- What stands before and behind a descriptor.
pub record Around (os : List (Option ℕ)) (fd : ℕ) (o : Option ℕ) : Type 0 where
  pub xs : List ℕ
  pub ys : List ℕ
  pub with : (p : Option ℕ) → held (set os fd p) ≡ xs ++ (held (p ∷ []) ++ ys)
  pub here : held os ≡ xs ++ (held (o ∷ []) ++ ys)

pub get-Around :
    (os : List (Option ℕ)) (fd : ℕ) (o : Option ℕ) → get_elem? os fd ≡ some o → Around os fd o
unfolding held
get-Around [] fd o h = absurd (cc h)
get-Around (x ∷ os) zero o h =
    let same : x ≡ o = cc h in
    record {
      xs = [];
      ys = held os;
      with = λ p. held-cons p os;
      here = held-cons x os ∙ ap (λ q. held (q ∷ []) ++ held os) same;
    }
get-Around (none ∷ os) (suc fd) o h =
    let r = get-Around os fd o h in record { xs = r.xs; ys = r.ys; with = r.with; here = r.here }
get-Around (some f ∷ os) (suc fd) o h =
    let r = get-Around os fd o h in
    record { xs = f ∷ r.xs; ys = r.ys; with = λ p. ap (◌∷◌ f) (r.with p); here = ap (◌∷◌ f) r.here }

-- A descriptor that is not in use, with all smaller ones in use.
pub record IsLowest (os : List (Option ℕ)) (fd : ℕ) : Type 0 where
  pub unused : get_elem? os fd ≡ some none
  pub lower : (k : ℕ) → k < fd → (f : ℕ) × (get_elem? os k ≡ some (some f))

IsLowest-cons :
    (f : ℕ) (os : List (Option ℕ)) (fd : ℕ) → IsLowest os fd → IsLowest (some f ∷ os) (suc fd)
IsLowest-cons f os fd r = record { unused = r.unused; lower = in_use }
  where
    in_use : (k : ℕ) → k < suc fd → (g : ℕ) × (get_elem? (some f ∷ os) k ≡ some (some g))
    in_use zero less = (f, refl)
    in_use (suc k) less = r.lower k (omega (arith, less))

-- `free_slot` finds the first descriptor that is not in use.
pub free_slot-IsLowest : (os : List (Option ℕ)) (fd : ℕ) → free_slot os ≡ some fd → IsLowest os fd
unfolding free_slot
free_slot-IsLowest [] fd h = absurd (cc h)
free_slot-IsLowest (none ∷ os) zero h = record {
  unused = refl;
  lower = λ k less. absurd (omega (arith, less));
}
free_slot-IsLowest (none ∷ os) (suc fd) h = absurd (cc h)
free_slot-IsLowest (some f ∷ os) fd h = elim (Option-cases (free_slot os)) [
  | inl full ↦ absurd (cc (rw full at h))
  | inr (n, e) ↦
      let q : suc n ≡ fd = cc (rw e at h) in
      subst (IsLowest (some f ∷ os)) q (IsLowest-cons f os n (free_slot-IsLowest os n e))
]

-- Without a free slot all descriptors are in use.
pub free_slot-full :
    (os : List (Option ℕ)) (k : ℕ) → free_slot os ≡ none → get_elem? os k ≢ some none
unfolding free_slot
free_slot-full [] k h e = cc e
free_slot-full (none ∷ os) k h e = cc h
free_slot-full (some f ∷ os) zero h e = cc e
free_slot-full (some f ∷ os) (suc k) h e = elim (Option-cases (free_slot os)) [
  | inl full ↦ free_slot-full os k full e
  | inr (n, some_n) ↦ cc (rw some_n at h)
]
