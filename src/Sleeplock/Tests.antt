-- ===== src/Sleeplock/Tests.antt =====
-- One process has the lock, and another sleeps on it until it is released.
use csklub_os.Base.{◌≡◌, refl, true}
use csklub_os.Sleeplock.{Sleeplock, initsleeplock, acquiresleep, releasesleep}
use csklub_os.Sleeplock.Guard.{
  Users, outside, trying, sleeping, inside, moved, after_wakeup, begins, gets, sleeps, releases,
  Reach, here, next, IsGuarded, Reach-IsGuarded, initsleeplock-IsGuarded,
}

abbrev taken_by_one : Sleeplock
taken_by_one = record { locked = true; pid = 1 }

abbrev one_waits : Users
one_waits = record {
  lock = taken_by_one;
  phase = moved 2 sleeping (moved 2 trying (moved 1 inside (moved 1 trying (λ q. outside))));
}

abbrev handed_over : Users
handed_over = record {
  lock = releasesleep taken_by_one;
  phase = moved 1 outside (λ q. after_wakeup (one_waits.phase q));
}

handed_over-Reach : Reach (record { lock = initsleeplock; phase = λ q. outside }) handed_over
unfolding acquiresleep
handed_over-Reach =
    next
      (next
        (next (next (next here (begins 1 refl)) (gets 1 taken_by_one refl refl)) (begins 2 refl))
        (sleeps 2 refl refl))
      (releases 1 refl)

Reach-IsGuarded_example : IsGuarded handed_over
Reach-IsGuarded_example = Reach-IsGuarded initsleeplock-IsGuarded handed_over-Reach

-- The sleeper is woken.
handed_over_run : handed_over.phase 2 ≡ trying
handed_over_run = refl
