-- ===== src/FileTable/Tests.antt =====
-- A table of two files, of which the first is opened twice.
use csklub_os.Base.{ℕ, zero, suc, ◌≡◌, refl, arith, true, [], ◌∷◌}
use csklub_os.Bio.Held.{occurs}
use csklub_os.FileTable.{File, fd_none, filealloc, filedup}
use csklub_os.FileTable.Counted.{
  refs, FileTable, allocates, duplicates, Reach, here, next, IsCounted,
}
use csklub_os.FileTable.Close.{Reach-IsCounted}

abbrev with_ref : ℕ → File
with_ref n = record { kind = fd_none; ref = n; readable = true; writable = true; pipe = 0; ip = 0 }

abbrev unused_table : FileTable
unused_table = record { files = with_ref 0 ∷ with_ref 0 ∷ []; holders = [] }

unused_table-IsCounted : IsCounted unused_table
unfolding occurs
unused_table-IsCounted = record { counted = λ i. none_open i; few = omega arith }
  where
    none_open : (i : ℕ) → refs i unused_table.files ≡ 0
    none_open zero = refl
    none_open (suc zero) = refl
    none_open (suc (suc i)) = refl

abbrev shared_table : FileTable
shared_table = record { files = with_ref 2 ∷ with_ref 0 ∷ []; holders = 0 ∷ 0 ∷ [] }

shared_table-Reach : Reach unused_table shared_table
unfolding filealloc filedup occurs
shared_table-Reach =
    next (next here (allocates 0 (with_ref 1 ∷ with_ref 0 ∷ []) (omega arith) refl))
      (duplicates 0 (with_ref 2 ∷ with_ref 0 ∷ []) (omega arith) (omega arith) refl)

Reach-IsCounted_example : IsCounted shared_table
Reach-IsCounted_example = Reach-IsCounted unused_table-IsCounted shared_table-Reach
