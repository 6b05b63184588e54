-- ===== src/Descriptor/Tests.antt =====
-- A process with three descriptors for two files, of which another process has one open as well.
use csklub_os.Base.{
  ℕ, zero, suc, ◌+◌, ◌<◌, ◌^◌, ◌≡◌, refl, arith, true, false, List, [], ◌∷◌, ◌++◌, Option, some,
  none, ok, length, set,
}
use csklub_os.Bio.Held.{occurs}
use csklub_os.FileTable.{File, fd_pipe, filealloc, find_free}
use csklub_os.FileTable.Counted.{refs, IsCounted}
use csklub_os.Descriptor.{After, sys_dup, sys_close, sys_pipe, pipealloc, fdalloc, free_slot}
use csklub_os.Descriptor.Slots.{held}
use csklub_os.Descriptor.Counts.{shared}
use csklub_os.Descriptor.Calls.{Duplicated, sys_dup-Duplicated, ClosedBy, sys_close-ClosedBy}
use csklub_os.Descriptor.SysPipe.{Piped, sys_pipe-Piped}

abbrev counted_file : ℕ → File
counted_file n = record {
  kind = fd_pipe;
  ref = n;
  readable = false;
  writable = true;
  pipe = 7;
  ip = 0;
}

abbrev four_files : List File
four_files = counted_file 2 ∷ counted_file 2 ∷ counted_file 0 ∷ counted_file 0 ∷ []

abbrev three_open : List (Option ℕ)
three_open =
    some 0
    ∷ none
    ∷ some 1
    ∷ some 0
    ∷ none
    ∷ none
    ∷ none
    ∷ none
    ∷ none
    ∷ none
    ∷ none
    ∷ none
    ∷ none
    ∷ none
    ∷ none
    ∷ none
    ∷ []

four_files-IsCounted : IsCounted (shared three_open (1 ∷ []) four_files)
unfolding held occurs
four_files-IsCounted = record { counted = λ i. same i; few = omega arith }
  where
    same : (i : ℕ) → refs i four_files ≡ occurs i (0 ∷ 1 ∷ 0 ∷ 1 ∷ [])
    same zero = refl
    same (suc zero) = refl
    same (suc (suc zero)) = refl
    same (suc (suc (suc zero))) = refl
    same (suc (suc (suc (suc i)))) = ground arith

few_open : length (held three_open ++ 1 ∷ []) + 2 < 2 ^ 31
unfolding held
few_open = omega arith

sys_dup-Duplicated_example :
    (r : After ℕ) × (sys_dup 0 three_open four_files ≡ ok r)
    × Duplicated 0 three_open four_files r
    × IsCounted (shared r.ofile (1 ∷ []) r.files)
sys_dup-Duplicated_example =
    sys_dup-Duplicated 0 three_open (1 ∷ []) four_files four_files-IsCounted
      (omega (arith, few_open))

sys_close-ClosedBy_example :
    (r : After ℕ) × (sys_close 2 three_open four_files ≡ ok r)
    × ClosedBy 2 three_open (1 ∷ []) four_files r
    × IsCounted (shared r.ofile (1 ∷ []) r.files)
sys_close-ClosedBy_example =
    sys_close-ClosedBy 2 three_open (1 ∷ []) four_files four_files-IsCounted

sys_pipe-Piped_example :
    (r : After (ℕ × ℕ)) × (sys_pipe (some 9) true three_open four_files ≡ ok r)
    × Piped (some 9) true three_open four_files r
    × IsCounted (shared r.ofile (1 ∷ []) r.files)
sys_pipe-Piped_example =
    sys_pipe-Piped (some 9) true three_open (1 ∷ []) four_files four_files-IsCounted few_open

-- The two lowest descriptors that are not in use stand for the ends.
sys_pipe_run :
    sys_pipe (some 9) true three_open four_files
    ≡ ok (record {
      result = some (1, 4);
      ofile = set (set three_open 1 (some 2)) 4 (some 3);
      files =
          counted_file 2
          ∷ counted_file 2
          ∷ record (counted_file 1) { readable = true; writable = false; pipe = 9 }
          ∷ record (counted_file 1) { pipe = 9 }
          ∷ [];
      closings = [];
    })
unfolding sys_pipe pipealloc fdalloc free_slot filealloc find_free
sys_pipe_run = refl
