-- ===== src/Spinlock/Tests.antt =====
-- A lock and processors that have not used it yet.
use csklub_os.Base.{refl, true, false}
use csklub_os.Disk.{update}
use csklub_os.Spinlock.{Cpu, initlock, acquire_begin, push_off, test_and_set}
use csklub_os.Spinlock.Exclude.{
  Machine, outside, spinning, taking, IsExclusive, Reach, here, next, begins, takes,
  Reach-IsExclusive,
}

abbrev quiet_cpu : Cpu
quiet_cpu = record { noff = 0; intena = false; interrupts = true }

abbrev fresh : Machine
fresh = record { lock = initlock; cpus = λ c. quiet_cpu; phases = λ c. outside }

fresh-IsExclusive : IsExclusive fresh
unfolding initlock
fresh-IsExclusive = record {
  set = λ c b. cc b;
  only = λ c d b e. absurd (cc b);
  owner = λ c. (λ e. e, λ e. e);
}

abbrev contended : Machine
contended = record fresh {
  cpus = update (λ c. quiet_cpu) 1 (push_off quiet_cpu);
  phases = update (λ c. outside) 1 spinning;
}

abbrev taken : Machine
taken = record contended {
  lock = (test_and_set initlock).1;
  phases = update contended.phases 1 taking;
}

taken-Reach : Reach fresh taken
unfolding initlock acquire_begin test_and_set
taken-Reach = next (next here (begins 1 (push_off quiet_cpu) refl refl)) (takes 1 refl refl)

Reach-IsExclusive_example : IsExclusive taken
Reach-IsExclusive_example = Reach-IsExclusive fresh-IsExclusive taken-Reach
