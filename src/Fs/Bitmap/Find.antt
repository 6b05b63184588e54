-- ===== src/Fs/Bitmap/Find.antt =====
-- The search of a map block, and a change of one bit.
use csklub_os.Base.{
  ℕ, zero, suc, ◌+◌, ◌/◌, ◌%◌, ◌<◌, ◌≡◌, ◌≢◌, refl, sym, subst, inl, inr, ◌∙◌, ap, arith, Option,
  none, some, ◌==◌, eq→==, ne→==, if◌then◌else◌, Bool-cases, ℕ_discrete,
}
use csklub_os.Disk.{Block}
use csklub_os.Fs.Bits.{bit, bit-put_bit_same, bit-put_bit_other}
use csklub_os.Fs.Bitmap.{block_bit, mark, find_bit}

-- What a search of the `left` bits from `bi` on finds.
pub data Found (left bi : ℕ) (v : Block) : Option ℕ → Type 0 where
  full : ((j : ℕ) → j < left → block_bit v (bi + j) ≢ 0) → Found left bi v none
  first :
      (d : ℕ)
      → d < left
      → block_bit v (bi + d) ≡ 0
      → ((j : ℕ) → j < d → block_bit v (bi + j) ≢ 0)
      → Found left bi v (some (bi + d))

later :
    (bi : ℕ) (v : Block) (n : ℕ)
    → block_bit v bi ≢ 0
    → ((j : ℕ) → j < n → block_bit v (bi + 1 + j) ≢ 0)
    → (j : ℕ) → j < suc n
    → block_bit v (bi + j) ≢ 0
later bi v n ne h zero lt e = ne (ap (block_bit v) (omega arith) ∙ e)
later bi v n ne h (suc j) lt e = h j (omega arith) (ap (block_bit v) (omega arith) ∙ e)

Found-suc :
    (left bi : ℕ) (v : Block) (r : Option ℕ)
    → block_bit v bi ≢ 0
    → Found left (bi + 1) v r
    → Found (suc left) bi v r
Found-suc left bi v none ne (full h) = full (later bi v left ne h)
Found-suc left bi v _ ne (first d lt free before) =
    subst (λ k. Found (suc left) bi v (some k)) (omega arith)
      (first (suc d) (omega arith) (ap (block_bit v) (omega arith) ∙ free) (later bi v d ne before))

pub find_bit-Found : (left bi : ℕ) (v : Block) → Found left bi v (find_bit left bi v)
unfolding find_bit
find_bit-Found zero bi v = full (λ j lt. absurd (omega (arith, lt)))
find_bit-Found (suc left) bi v = elim (Bool-cases (block_bit v bi == 0)) [
  | inl free ↦
      let here : bi + 0 ≡ bi = omega arith in
      let clear : block_bit v bi ≡ 0 = ground (arith, free) in
      rw free (
        subst (λ k. Found (suc left) bi v (some k)) here
          (first 0 (omega arith) (ap (block_bit v) here ∙ clear)
            (λ j lt. absurd (omega (arith, lt)))))
  | inr taken ↦ rw taken (
      Found-suc left bi v (find_bit left (bi + 1) v) (ground (arith, taken))
        (find_bit-Found left (bi + 1) v))
]

-- A change of one bit changes no other.
pub block_bit-mark :
    (v : Block) (bi x bj : ℕ)
    → x < 2
    → block_bit (mark v bi x) bj ≡ (if bj == bi then x else block_bit v bj)
unfolding block_bit mark
block_bit-mark v bi x bj small = elim (ℕ_discrete bj bi) [
  | yes same ↦
      rw (same, eq→== bi bi refl, eq→== (bi / 32) (bi / 32) refl)
        (bit-put_bit_same (bi % 32) (v (bi / 32)) x small)
  | no other ↦ elim (ℕ_discrete (bj / 32) (bi / 32)) [
    | yes word ↦
        rw (ne→== bj bi other, eq→== (bj / 32) (bi / 32) word)
          (bit-put_bit_other (bi % 32) (bj % 32) (v (bi / 32)) x small
              (λ e. other (omega (arith, e, word)))
            ∙ ap (λ u. bit (v u) (bj % 32)) (sym word))
    | no word ↦ rw (ne→== bj bi other, ne→== (bj / 32) (bi / 32) word) refl
  ]
]
