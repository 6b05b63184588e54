-- ===== src/Bio/Totals.antt =====
-- Sums over the buffers of the cache, which do not depend on the list's order.
use csklub_os.Base.{
  ℕ, ◌+◌, ◌≡◌, refl, sym, subst, ap, ◌∙◌, arith, List, [], ◌∷◌, ◌++◌, All, none, some, ◌==◌,
  Bool-cases, inl, inr, if◌then◌else◌,
}
use csklub_os.Bio.{Buffer, holds, at, replace, unlink}

unfoldable pub total : (Buffer → ℕ) → List Buffer → ℕ
total f [] = 0
total f (b ∷ bs) = f b + total f bs

abbrev pub is_slot : ℕ → Buffer → ℕ
is_slot s b = if b.slot == s then 1 else 0

abbrev pub is_block : ℕ → ℕ → Buffer → ℕ
is_block d n b = if holds d n b then 1 else 0

abbrev pub references : ℕ → Buffer → ℕ
references s b = if b.slot == s then b.refcnt else 0

pub total-cons :
    (f : Buffer → ℕ) (b : Buffer) (bs : List Buffer) → total f (b ∷ bs) ≡ f b + total f bs
unfolding total
total-cons f b bs = refl

pub total-append :
    (f : Buffer → ℕ) (xs ys : List Buffer) → total f (xs ++ ys) ≡ total f xs + total f ys
unfolding total
total-append f [] ys = omega arith
total-append f (x ∷ xs) ys = omega (arith, total-append f xs ys)

pub total-none : (f : Buffer → ℕ) (bs : List Buffer) → All (λ b. f b ≡ 0) bs → total f bs ≡ 0
unfolding total
total-none f [] h = refl
total-none f (b ∷ bs) h = omega (arith, h.0, total-none f bs h.1)

-- Without a buffer of the slot there are no references to it.
pub total-references :
    (s : ℕ) (bs : List Buffer) → total (is_slot s) bs ≡ 0 → total (references s) bs ≡ 0
unfolding total
total-references s [] h = refl
total-references s (b ∷ bs) h =
    let rest = total-references s bs (ground (arith, h)) in ground (arith, h, rest)

-- `cs` is `bs` with `c` for `b`, wherever it stands.
pub record Swapped (b c : Buffer) (bs cs : List Buffer) : Type 0 where
  pub rest : List Buffer
  pub before : (f : Buffer → ℕ) → total f bs ≡ total f rest + f b
  pub after : (f : Buffer → ℕ) → total f cs ≡ total f rest + f c

pub total-middle :
    (f : Buffer → ℕ) (xs ys : List Buffer) (b : Buffer)
    → total f (xs ++ b ∷ ys) ≡ total f (xs ++ ys) + f b
total-middle f xs ys b =
    omega (arith, total-append f xs (b ∷ ys), total-append f xs ys, total-cons f b ys)

pub Swapped-middle :
    (b c : Buffer) (bs xs ys : List Buffer) → bs ≡ xs ++ b ∷ ys → Swapped b c bs (xs ++ c ∷ ys)
Swapped-middle b c bs xs ys e = record {
  rest = xs ++ ys;
  before = λ f. ap (total f) e ∙ total-middle f xs ys b;
  after = λ f. total-middle f xs ys c;
}

pub at-none : (s : ℕ) (bs : List Buffer) → at s bs ≡ none → total (references s) bs ≡ 0
unfolding at total
at-none s [] h = refl
at-none s (b ∷ bs) h = elim (Bool-cases (b.slot == s)) [
  | inl same ↦ absurd (ground (arith, same, h))
  | inr other ↦ let rest = at-none s bs (rw other at h) in ground (arith, other, rest)
]

-- Where a pointer points, and what a change there does.
pub record Found (s : ℕ) (b : Buffer) (bs : List Buffer) : Type 0 where
  pub slot : b.slot ≡ s
  pub replaced : (c : Buffer) → Swapped b c bs (replace s c bs)
  pub moved : (c : Buffer) → Swapped b c bs (c ∷ unlink s bs)

split-at :
    (s : ℕ) (b : Buffer) (bs : List Buffer)
    → at s bs ≡ some b
    → (b.slot ≡ s)
      × (xs ys : List Buffer) × (bs ≡ xs ++ b ∷ ys)
      × ((c : Buffer) → replace s c bs ≡ xs ++ c ∷ ys)
      × (unlink s bs ≡ xs ++ ys)
unfolding at replace unlink
split-at s b [] h = absurd (cc h)
split-at s b (a ∷ bs) h = elim (Bool-cases (a.slot == s)) [
  | inl same ↦
      let e : a ≡ b = cc (rw same at h) in
      rw same
        (ap (λ x. x.slot) (sym e) ∙ (ground arith), [], bs, ap (λ x. x ∷ bs) e, λ c. refl, refl)
  | inr other ↦
      let (slot, xs, ys, e, put, out) = split-at s b bs (rw other at h) in
      rw other (slot, a ∷ xs, ys, ap (◌∷◌ a) e, λ c. ap (◌∷◌ a) (put c), ap (◌∷◌ a) out)
]

pub at-Found : (s : ℕ) (b : Buffer) (bs : List Buffer) → at s bs ≡ some b → Found s b bs
at-Found s b bs h =
    let (slot, xs, ys, e, put, out) = split-at s b bs h in
    record {
      slot = slot;
      replaced = λ c. subst (Swapped b c bs) (sym (put c)) (Swapped-middle b c bs xs ys e);
      moved = λ c. record {
        rest = xs ++ ys;
        before = λ f. ap (total f) e ∙ total-middle f xs ys b;
        after = λ f. total-cons f c (unlink s bs) ∙ omega (arith, ap (total f) out);
      };
    }
