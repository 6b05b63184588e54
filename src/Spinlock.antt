-- ===== src/Spinlock.antt =====
-- operating_system_engineering/labs/kernel/spinlock.c: spin locks and the nesting of interrupts being
-- off. `cpu` of a lock is the number of a processor, `none` for the null pointer. `acquire` and
-- `release` are cut at each access to the lock, so that processors interleave there; the fences
-- keep that order.

pub mod Nest
pub mod Exclude
mod Tests
use csklub_os.Base.{
  ℕ, ◌+◌, ◌-◌, ◌%◌, ◌^◌, Bool, true, false, ◌&&◌, not, Option, none, some, Outcome, ok, panic, ltb,
  ◌==◌, if◌then◌else◌,
}

-- `interrupts` is the SIE bit, which `intr_get` reads.
pub record Cpu : Type 0 where
  pub noff : ℕ
  pub intena : Bool
  pub interrupts : Bool

pub record Spinlock : Type 0 where
  pub locked : Bool
  pub cpu : Option ℕ

unfoldable pub initlock : Spinlock
initlock = record { locked = false; cpu = none }

-- `lk->cpu == mycpu()`.
abbrev pub is_owner : ℕ → Spinlock → Bool
is_owner me l = elim l.cpu [ none ↦ false | some c ↦ c == me ]

unfoldable pub holding : ℕ → Spinlock → Bool
holding me l = l.locked && is_owner me l

unfoldable pub push_off : Cpu → Cpu
push_off c =
    let quiet = record c { interrupts = false } in
    let kept = if c.noff == 0 then record quiet { intena = c.interrupts } else quiet in
    record kept { noff = (c.noff + 1) % 2 ^ 32 }

-- `noff` is an `int`: it is below 1 at 0 and with the sign bit set.
unfoldable pub pop_off : Cpu → Outcome Cpu
pop_off c =
    if c.interrupts
    then panic
    else if ltb ((c.noff + 2 ^ 31) % 2 ^ 32) (2 ^ 31 + 1)
    then panic
    else if c.noff - 1 == 0 && c.intena
    then ok (record c { noff = c.noff - 1; interrupts = true })
    else ok (record c { noff = c.noff - 1 })

-- `acquire` up to its loop.
unfoldable pub acquire_begin : ℕ → Cpu → Spinlock → Outcome Cpu
unfolding push_off holding
acquire_begin me c l = if holding me l then panic else ok (push_off c)

-- The atomic swap: the value that was there, and the lock.
unfoldable pub test_and_set : Spinlock → Bool × Spinlock
test_and_set l = (l.locked, record l { locked = true })

-- `acquire` after its loop.
unfoldable pub acquire_end : ℕ → Spinlock → Spinlock
acquire_end me l = record l { cpu = some me }

-- `release` up to the fence.
unfoldable pub release_begin : ℕ → Spinlock → Outcome Spinlock
unfolding holding
release_begin me l = if holding me l then ok (record l { cpu = none }) else panic

-- The rest of `release`.
unfoldable pub release_end : Cpu → Spinlock → Outcome (Cpu × Spinlock)
unfolding pop_off
release_end c l = elim (pop_off c) [ panic ↦ panic | ok d ↦ ok (d, record l { locked = false }) ]
