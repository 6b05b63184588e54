-- ===== src/Log/Tests.antt =====
-- The log on a small disk: its area is blocks 2 to 32, and blocks 40 and 41 are logged. Block `b` of
-- the disk holds `b` in its word 1, and its newer buffer `b + 100`.
use csklub_os.Base.{
  ℕ, ◌+◌, ◌≡◌, ◌⊎◌, inr, refl, arith, true, false, List, [], ◌∷◌, ◌==◌, if◌then◌else◌, panic, zero,
  suc,
}
use csklub_os.Disk.{Blocks, Device, reboot}
use csklub_os.Log.{Log, head_blocks, commit, recover_from_log, log_write, begin_op}
use csklub_os.Log.Logical.{Home, logical}
use csklub_os.Log.Commit.{IsLog, committed, commit_atomic}
use csklub_os.Log.Crash.{restarts, crash_recovery, commit_complete}
use csklub_os.Log.Reserve.{
  Transactions, Reserved, Reach, here, next, begins, sum, Reach-Reserved, log_write-panic,
}

abbrev old_disk : Blocks
old_disk b w = if b == 2 then 0 else if w == 1 then b else 0

abbrev new_cache : Blocks
new_cache b w = if b == 2 then 0 else if w == 1 then b + 100 else 0

abbrev device : ℕ → Device
device power = record { disk = old_disk; cache = new_cache; pins = λ b. 1; power = power }

abbrev two_blocks : Log
two_blocks = record {
  start = 2;
  size = 31;
  outstanding = 0;
  committing = true;
  blocks = 40 ∷ 41 ∷ [];
}

two_blocks-IsLog : IsLog 2 31 (40 ∷ 41 ∷ [])
two_blocks-IsLog = record {
  homes = (inr (omega arith), (inr (omega arith), tt));
  fits = omega arith;
}

-- Cut off before the header is written, and behind it.
commit_runs :
    ((commit two_blocks (device 2)).1.disk 40 1 ≡ 40)
    × ((recover_from_log two_blocks (reboot 40 (commit two_blocks (device 2)).1)).1.disk 40 1 ≡ 40)
    × ((commit two_blocks (device 3)).1.disk 40 1 ≡ 40)
    × ((recover_from_log two_blocks (reboot 40 (commit two_blocks (device 3)).1)).1.disk 41 1 ≡ 141)
unfolding commit recover_from_log reboot
commit_runs = (refl, refl, refl, refl)

commit_atomic_example :
    ((b : ℕ) → Home 2 31 b → logical 2 (commit two_blocks (device 3)).1.disk b ≡ old_disk b)
    ⊎ ((b : ℕ)
        → Home 2 31 b
        → logical 2 (commit two_blocks (device 3)).1.disk b ≡ committed (40 ∷ 41 ∷ []) (device 3) b)
unfolding head_blocks
commit_atomic_example = commit_atomic two_blocks (device 3) two_blocks-IsLog refl

crash_recovery_example :
    head_blocks (
      (recover_from_log two_blocks
          (reboot 31 (restarts two_blocks (1 ∷ 0 ∷ []) (commit two_blocks (device 4)).1))).1.disk
        2)
    ≡ []
unfolding head_blocks
crash_recovery_example =
    (crash_recovery two_blocks (device 4) (1 ∷ 0 ∷ []) 31 two_blocks-IsLog refl (omega arith)).1

commit_complete_example :
    (commit two_blocks (device 6)).1.disk 41 ≡ committed (40 ∷ 41 ∷ []) (device 6) 41
unfolding head_blocks
commit_complete_example =
    (commit_complete two_blocks (device 6) two_blocks-IsLog refl (omega arith)).0 41
      (inr (omega arith))

-- The log that `initlog` leaves, with the size of the area that it is given.
abbrev fresh : ℕ → Transactions
fresh size = record {
  log = record { start = 2; size = size; outstanding = 0; committing = false; blocks = [] };
  device = device 100;
  budgets = [];
}

fresh-Reserved : (size : ℕ) → Reserved (fresh size)
unfolding sum
fresh-Reserved size = record {
  fits = omega arith;
  small = tt;
  counted = refl;
  few = omega arith;
  quiet = λ q. refl;
}

abbrev begun : Transactions
begun = record (fresh 31) { log = record (fresh 31).log { outstanding = 1 }; budgets = 10 ∷ [] }

begun-Reach : Reach (fresh 31) begun
unfolding begin_op
begun-Reach = next here (begins begun.log refl)

Reach-Reserved_example : Reserved begun
Reach-Reserved_example = Reach-Reserved (fresh-Reserved 31) begun-Reach

abbrev numbers : ℕ → ℕ → List ℕ
numbers zero b = []
numbers (suc n) b = b ∷ numbers n (b + 1)

-- Three operations, of 10, 10 and 9 blocks so far, in a log area of the size that mkfs/mkfs.c gives
-- it: `nlog = LOGSIZE`. The last one may still add a block, and panics.
abbrev crowded : Transactions
crowded = record {
  log = record {
    start = 2;
    size = 30;
    outstanding = 3;
    committing = false;
    blocks = numbers 29 100;
  };
  device = device 100;
  budgets = 0 ∷ 0 ∷ 1 ∷ [];
}

crowded-Reserved : Reserved crowded
unfolding sum
crowded-Reserved = record {
  fits = omega arith;
  small = omega arith;
  counted = refl;
  few = omega arith;
  quiet = λ q. cc;
}

log_write-panic_example : log_write crowded.log crowded.device 500 ≡ panic
log_write-panic_example =
    (log_write-panic crowded (0 ∷ 0 ∷ []) [] 0 500 crowded-Reserved refl (omega arith)
        (omega arith)).1
      (omega arith)
