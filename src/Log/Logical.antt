-- ===== src/Log/Logical.antt =====
-- The disk as the log's contract presents it: the blocks that the header names have the contents
-- that the log holds for them, all others their own. This is what a recovery makes of the disk.
use csklub_os.Base.{
  ℕ, suc, ◌+◌, ◌≤◌, ◌<◌, ◌≡◌, ◌⊎◌, inl, inr, refl, ◌∙◌, ap, arith, false, List, [], ◌∷◌, length,
  ◌==◌, if◌then◌else◌, mem, Bool-cases,
}
use csklub_os.Disk.{Blocks, update}
use csklub_os.Log.{head_blocks}

-- The block numbers that the log itself occupies.
abbrev pub InLog : ℕ → ℕ → ℕ → Type 0
InLog start size b = (start ≤ b) × (b < start + size)

-- A home block: one outside the log.
abbrev pub Home : ℕ → ℕ → ℕ → Type 0
Home start size b = (b < start) ⊎ (start + size ≤ b)

-- The blocks of the list are replaced by the successive blocks from `first` on of `src`.
unfoldable pub overlay : Blocks → ℕ → List ℕ → Blocks → Blocks
overlay src first [] base = base
overlay src first (c ∷ cs) base = overlay src (first + 1) cs (update base c (src first))

unfoldable pub logical : ℕ → Blocks → Blocks
unfolding overlay
logical start disk = overlay disk (start + 1) (head_blocks (disk start)) disk

-- The successive blocks from `first` on of `src` are the `val`s of the list.
abbrev pub Stored : Blocks → ℕ → List ℕ → Blocks → Type 0
Stored src first [] val = Unit {0}
Stored src first (c ∷ cs) val = (src first ≡ val c) × Stored src (first + 1) cs val

pub overlay-Stored :
    (cs : List ℕ) (src : Blocks) (first : ℕ) (base val : Blocks) (b : ℕ)
    → Stored src first cs val
    → overlay src first cs base b ≡ (if mem b cs then val b else base b)
unfolding overlay mem
overlay-Stored [] src first base val b s = refl
overlay-Stored (c ∷ cs) src first base val b s =
    ground (arith, overlay-Stored cs src (first + 1) (update base c (src first)) val b s.1)

-- What is read only outside the list does not depend on the list's blocks of the base, and the
-- source counts only where the log's blocks are.
pub overlay-agree :
    (cs : List ℕ) (src src' : Blocks) (first : ℕ) (base base' : Blocks) (b : ℕ)
    → ((k : ℕ) → k < length cs → src (first + k) ≡ src' (first + k))
    → (mem b cs ≡ false → base b ≡ base' b)
    → overlay src first cs base b ≡ overlay src' first cs base' b
unfolding overlay mem
overlay-agree [] src src' first base base' b s e = e refl
overlay-agree (c ∷ cs) src src' first base base' b s e =
    overlay-agree cs src src' (first + 1) (update base c (src first)) (update base' c (src' first))
      b (λ k lt. ap src (omega arith) ∙ s (suc k) (omega arith) ∙ ap src' (omega arith))
      λ m. elim (Bool-cases (b == c)) [
        | inl hit ↦ rw hit (ap src (omega arith) ∙ s 0 (omega arith) ∙ ap src' (omega arith))
        | inr miss ↦ rw miss (e (rw (miss, m)))
      ]

-- With an empty header the disk is what it seems.
pub logical-empty :
    (start : ℕ) (disk : Blocks) (b : ℕ)
    → head_blocks (disk start) ≡ []
    → logical start disk b ≡ disk b
unfolding logical
logical-empty start disk b e = ap (λ bs. overlay disk (start + 1) bs disk b) e

-- A disk that differs only at blocks that the header names presents the same.
pub logical-agree :
    (start size : ℕ) (disk disk' : Blocks) (b : ℕ)
    → disk start ≡ disk' start
    → length (head_blocks (disk start)) < size
    → ((k : ℕ) → start ≤ k → k < start + size → disk k ≡ disk' k)
    → (mem b (head_blocks (disk start)) ≡ false → disk b ≡ disk' b)
    → logical start disk b ≡ logical start disk' b
unfolding logical
logical-agree start size disk disk' b same lt inside outside =
    overlay-agree (head_blocks (disk start)) disk disk' (start + 1) disk disk' b
      (λ k l. inside (start + 1 + k) (omega arith) (omega arith)) outside
    ∙ ap (λ h. overlay disk' (start + 1) (head_blocks h) disk' b) same
