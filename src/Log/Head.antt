-- ===== src/Log/Head.antt =====
-- The header block: what `write_head` puts there, `read_head` reads back.
use csklub_os.Base.{ℕ, ◌+◌, ◌≤◌, ◌≡◌, refl, ◌∙◌, ap, arith, List, [], ◌∷◌, length}
use csklub_os.Disk.{Block, update}
use csklub_os.Log.{read_words, write_words, head_blocks}

write_words-below : (bs : List ℕ) (h : Block) (i k : ℕ) → k ≤ i → write_words h i bs k ≡ h k
unfolding write_words
write_words-below [] h i k le = refl
write_words-below (b ∷ bs) h i k le =
    ground (arith, write_words-below bs (update h (i + 1) b) (i + 1) k (omega arith))

read_words-write_words :
    (bs : List ℕ) (h : Block) (i : ℕ) → read_words (write_words h i bs) i (length bs) ≡ bs
unfolding read_words write_words
read_words-write_words [] h i = refl
read_words-write_words (b ∷ bs) h i = ground (
  arith,
  write_words-below bs (update h (i + 1) b) (i + 1) (i + 1) (omega arith),
  read_words-write_words bs (update h (i + 1) b) (i + 1),
)

-- A header that `write_head` has filled from the list holds that list.
pub head_blocks-write :
    (h : Block) (bs : List ℕ) → head_blocks (write_words (update h 0 (length bs)) 0 bs) ≡ bs
unfolding head_blocks
head_blocks-write h bs =
    ap (read_words (write_words (update h 0 (length bs)) 0 bs) 0)
      (write_words-below bs (update h 0 (length bs)) 0 0 (omega arith))
    ∙ read_words-write_words bs (update h 0 (length bs)) 0
