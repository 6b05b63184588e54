-- ===== src/Bio/Get.antt =====
-- Which buffer `bget` takes.
use csklub_os.Base.{
  Outcome, ℕ, ◌≡◌, ◌≢◌, refl, ap, ap₂, arith, ◌⊎◌, true, false, List, [], ◌∷◌, ◌++◌, All, Option,
  none, some, ok, panic, ◌==◌, Bool-cases, inl, inr, if◌then◌else◌,
}
use csklub_os.Bio.{Buffer, holds, added, claimed, reuse, recycle, bget}

-- What `bget` may return on the list `bs`.
pub data Got (dev blockno : ℕ) (bs : List Buffer) : ℕ → List Buffer → Type 0 where
  -- The block's buffer, the first in the list that holds it.
  hit :
      (xs ys : List Buffer) (b : Buffer)
      → bs ≡ xs ++ b ∷ ys
      → All (λ c. holds dev blockno c ≡ false) xs
      → holds dev blockno b ≡ true
      → Got dev blockno bs b.slot (xs ++ added b ∷ ys)
  -- The least recently used buffer that no one refers to, where none holds the block.
  recycled :
      (xs ys : List Buffer) (b : Buffer)
      → bs ≡ xs ++ b ∷ ys
      → All (λ c. holds dev blockno c ≡ false) bs
      → All (λ c. c.refcnt ≢ 0) ys
      → b.refcnt ≡ 0
      → Got dev blockno bs b.slot (xs ++ claimed dev blockno b ∷ ys)

-- How a search of the list ends.
Reused : ℕ → ℕ → List Buffer → Option (ℕ × List Buffer) → Type 0
Reused dev blockno bs none = All (λ c. holds dev blockno c ≡ false) bs
Reused dev blockno bs (some (s, cs)) =
    (xs ys : List Buffer) × (b : Buffer) × (bs ≡ xs ++ b ∷ ys)
    × All (λ c. holds dev blockno c ≡ false) xs
    × (holds dev blockno b ≡ true)
    × (s ≡ b.slot)
    × (cs ≡ xs ++ added b ∷ ys)

Recycled : ℕ → ℕ → List Buffer → Option (ℕ × List Buffer) → Type 0
Recycled dev blockno bs none = All (λ c. c.refcnt ≢ 0) bs
Recycled dev blockno bs (some (s, cs)) =
    (xs ys : List Buffer) × (b : Buffer) × (bs ≡ xs ++ b ∷ ys)
    × All (λ c. c.refcnt ≢ 0) ys
    × (b.refcnt ≡ 0)
    × (s ≡ b.slot)
    × (cs ≡ xs ++ claimed dev blockno b ∷ ys)

Reused-cons :
    (dev blockno : ℕ) (b : Buffer) (bs : List Buffer) (r : Option (ℕ × List Buffer))
    → holds dev blockno b ≡ false
    → Reused dev blockno bs r
    → Reused dev blockno (b ∷ bs) (elim r [ none ↦ none | some q ↦ some (q.0, b ∷ q.1) ])
unfolding Reused
Reused-cons dev blockno b bs none n h = (n, h)
Reused-cons dev blockno b bs (some (s, cs)) n (xs, ys, c, e, before, here, p, q) =
    (b ∷ xs, ys, c, ap (◌∷◌ b) e, (n, before), here, p, ap (◌∷◌ b) q)

reuse-Reused : (dev blockno : ℕ) (bs : List Buffer) → Reused dev blockno bs (reuse dev blockno bs)
unfolding reuse Reused
reuse-Reused dev blockno [] = tt
reuse-Reused dev blockno (b ∷ bs) = elim (Bool-cases (holds dev blockno b)) [
  | inl same ↦ rw same ([], bs, b, refl, tt, same, refl, refl)
  | inr other ↦
      rw other
        (Reused-cons dev blockno b bs (reuse dev blockno bs) other (reuse-Reused dev blockno bs))
]

Recycled-cons :
    (dev blockno : ℕ) (b : Buffer) (bs : List Buffer) (r : Option (ℕ × List Buffer))
    → Recycled dev blockno bs r
    → Recycled dev blockno (b ∷ bs) (elim r [
      | some q ↦ some (q.0, b ∷ q.1)
      | none ↦ if b.refcnt == 0 then some (b.slot, claimed dev blockno b ∷ bs) else none
    ])
unfolding Recycled
Recycled-cons dev blockno b bs none h = elim (Bool-cases (b.refcnt == 0)) [
  | inl free ↦ rw free ([], bs, b, refl, h, ground arith, refl, refl)
  | inr busy ↦ rw busy (ground arith, h)
]
Recycled-cons dev blockno b bs (some (s, cs)) (xs, ys, c, e, behind, free, p, q) =
    (b ∷ xs, ys, c, ap (◌∷◌ b) e, behind, free, p, ap (◌∷◌ b) q)

recycle-Recycled :
    (dev blockno : ℕ) (bs : List Buffer) → Recycled dev blockno bs (recycle dev blockno bs)
unfolding recycle Recycled
recycle-Recycled dev blockno [] = tt
recycle-Recycled dev blockno (b ∷ bs) =
    Recycled-cons dev blockno b bs (recycle dev blockno bs) (recycle-Recycled dev blockno bs)

-- `bget` returns the buffer of the block, with one more reference, if there is one; otherwise the
-- least recently used buffer without references, claimed for the block. It panics only if no buffer
-- holds the block and all are referred to.
pub bget-Got :
    (dev blockno : ℕ) (bs : List Buffer)
    → ((s : ℕ) × (cs : List Buffer) × (bget dev blockno bs ≡ ok (s, cs)) × Got dev blockno bs s cs)
      ⊎ ((bget dev blockno bs ≡ panic)
          × All (λ c. holds dev blockno c ≡ false) bs
          × All (λ c. c.refcnt ≢ 0) bs)
unfolding bget Reused Recycled
bget-Got dev blockno bs =
    decide (reuse dev blockno bs) (reuse-Reused dev blockno bs) (recycle dev blockno bs)
      (recycle-Recycled dev blockno bs)
  where
    decide :
        (r : Option (ℕ × List Buffer))
        → Reused dev blockno bs r
        → (q : Option (ℕ × List Buffer)) → Recycled dev blockno bs q
        → let end : Outcome (ℕ × List Buffer) = elim r [
          | some r ↦ ok r
          | none ↦ elim q [ some r ↦ ok r | none ↦ panic ]
        ] in
          ((s : ℕ) × (cs : List Buffer) × (end ≡ ok (s, cs)) × Got dev blockno bs s cs)
          ⊎ ((end ≡ panic) × All (λ c. holds dev blockno c ≡ false) bs × All (λ c. c.refcnt ≢ 0) bs)
    decide (some (s, cs)) (xs, ys, b, e, before, same, p, q) r k =
        inl (b.slot, xs ++ added b ∷ ys, ap ok (ap₂ (λ u v. (u, v)) p q), hit xs ys b e before same)
    decide none h (some (s, cs)) (xs, ys, b, e, behind, free, p, q) = inl (
      b.slot,
      xs ++ claimed dev blockno b ∷ ys,
      ap ok (ap₂ (λ u v. (u, v)) p q),
      recycled xs ys b e h behind free,
    )
    decide none h none k = inr (refl, h, k)
