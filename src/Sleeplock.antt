-- ===== src/Sleeplock.antt =====
-- operating_system_engineering/labs/kernel/sleeplock.c: locks whose waiting sleeps. The spin lock `lk->lk` makes
-- a function one step, up to where it sleeps: `sleep` gives that lock up and goes to sleep at once.
pub mod Guard
mod Tests
use csklub_os.Base.{ℕ, Bool, true, false, ◌&&◌, Option, none, some, ◌==◌, if◌then◌else◌}

pub record Sleeplock : Type 0 where
  pub locked : Bool
  pub pid : ℕ

abbrev pub initsleeplock : Sleeplock
initsleeplock = record { locked = false; pid = 0 }

-- The loop's test with what follows it, for the process `me`. `none`: it sleeps, and tests again later.
unfoldable pub acquiresleep : ℕ → Sleeplock → Option Sleeplock
acquiresleep me lk = if lk.locked then none else some (record { locked = true; pid = me })

-- All that sleep on the lock are woken as well.
unfoldable pub releasesleep : Sleeplock → Sleeplock
releasesleep lk = record { locked = false; pid = 0 }

unfoldable pub holdingsleep : ℕ → Sleeplock → Bool
holdingsleep me lk = lk.locked && lk.pid == me
