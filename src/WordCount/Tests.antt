-- ===== src/WordCount/Tests.antt =====
-- The text `a b` and a newline, in two pieces.
use csklub_os.Base.{ℕ, ◌≡◌, arith, List, [], ◌∷◌, length}
use csklub_os.WordCount.{none_counted, wc}
use csklub_os.WordCount.Words.{newlines, word_starts, joined, wc-counts}

abbrev pieces : List (List ℕ)
pieces = (97 ∷ 32 ∷ []) ∷ (98 ∷ 10 ∷ []) ∷ []

wc-counts_example :
    ((wc none_counted pieces).lines ≡ newlines (joined pieces))
    × ((wc none_counted pieces).words ≡ word_starts 32 (joined pieces))
    × ((wc none_counted pieces).chars ≡ length (joined pieces))
wc-counts_example = wc-counts pieces (omega arith)
