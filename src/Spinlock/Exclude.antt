-- ===== src/Spinlock/Exclude.antt =====
-- One lock and any number of processors: mutual exclusion.
use csklub_os.Base.{
  ℕ, ◌≡◌, ◌↔◌, refl, sym, ap, arith, Bool, true, false, none, Outcome, ok, panic, subst,
}
use csklub_os.Disk.{update}
use csklub_os.Spinlock.{
  Cpu, Spinlock, is_owner, holding, push_off, pop_off, acquire_begin, test_and_set, acquire_end,
  release_begin, release_end,
}

-- How far a processor is: outside, in the loop of `acquire`, behind it, between `acquire` and
-- `release`, and between the two writes of `release`.
pub data Phase : Type 0 where
  outside spinning taking inside leaving : Phase

pub record Machine : Type 0 where
  pub lock : Spinlock
  pub cpus : ℕ → Cpu
  pub phases : ℕ → Phase

-- The processor has set `locked` and not yet cleared it.
abbrev pub is_busy : Phase → Bool
is_busy outside = false
is_busy spinning = false
is_busy taking = true
is_busy inside = true
is_busy leaving = true

abbrev pub is_inside : Phase → Bool
is_inside outside = false
is_inside spinning = false
is_inside taking = false
is_inside inside = true
is_inside leaving = false

-- `nests` and `unnests` are for the other locks.
pub data Step (m : Machine) : Machine → Type 0 where
  begins :
      (me : ℕ) (c : Cpu)
      → m.phases me ≡ outside
      → acquire_begin me (m.cpus me) m.lock ≡ ok c
      → Step m (record m { cpus = update m.cpus me c; phases = update m.phases me spinning })
  spins :
      (me : ℕ)
      → m.phases me ≡ spinning
      → (test_and_set m.lock).0 ≡ true
      → Step m (record m { lock = (test_and_set m.lock).1 })
  takes :
      (me : ℕ)
      → m.phases me ≡ spinning
      → (test_and_set m.lock).0 ≡ false
      → Step m (record m { lock = (test_and_set m.lock).1; phases = update m.phases me taking })
  enters :
      (me : ℕ)
      → m.phases me ≡ taking
      → Step m (record m { lock = acquire_end me m.lock; phases = update m.phases me inside })
  leaves :
      (me : ℕ) (l : Spinlock)
      → m.phases me ≡ inside
      → release_begin me m.lock ≡ ok l
      → Step m (record m { lock = l; phases = update m.phases me leaving })
  frees :
      (me : ℕ) (c : Cpu) (l : Spinlock)
      → m.phases me ≡ leaving
      → release_end (m.cpus me) m.lock ≡ ok (c, l)
      → Step m (record { lock = l; cpus = update m.cpus me c; phases = update m.phases me outside })
  nests : (me : ℕ) → Step m (record m { cpus = update m.cpus me (push_off (m.cpus me)) })
  unnests :
      (me : ℕ) (c : Cpu)
      → pop_off (m.cpus me) ≡ ok c
      → Step m (record m { cpus = update m.cpus me c })

pub data Reach (m : Machine) : Machine → Type 0 where
  here : Reach m m
  next : {k l : Machine} → Reach m k → Step k l → Reach m l

-- At most one processor is busy, the lock is set while one is, and the lock names exactly the
-- processor that is inside.
pub record IsExclusive (m : Machine) : Type 0 where
  pub set : (c : ℕ) → is_busy (m.phases c) ≡ true → m.lock.locked ≡ true
  pub only : (c d : ℕ) → is_busy (m.phases c) ≡ true → is_busy (m.phases d) ≡ true → c ≡ d
  pub owner : (c : ℕ) → (is_owner c m.lock ≡ true) ↔ (is_inside (m.phases c) ≡ true)

inside-busy : (p : Phase) → is_inside p ≡ true → is_busy p ≡ true
inside-busy outside e = e
inside-busy spinning e = e
inside-busy taking e = refl
inside-busy inside e = refl
inside-busy leaving e = refl

-- A processor that is not busy goes on, and does not touch the lock.
idle-IsExclusive :
    (m : Machine) (me : ℕ) (cpus : ℕ → Cpu) (p : Phase)
    → IsExclusive m
    → is_busy (m.phases me) ≡ false
    → is_busy p ≡ false
    → IsExclusive (record m { cpus = cpus; phases = update m.phases me p })
idle-IsExclusive m me cpus p w before after = record {
  set = λ x b. ground (arith, w.set x, after, b);
  only = λ x y b d. ground (arith, w.only x y, after, b, d);
  owner = λ x. ground (arith, w.owner x, inside-busy (m.phases x), inside-busy p, before, after);
}

unlocked :
    (o : Outcome Cpu) (l k : Spinlock) (c : Cpu)
    → ◌≡◌ {A = Outcome (Cpu × Spinlock)}
        (elim o [ panic ↦ panic | ok d ↦ ok (d, record l { locked = false }) ])
        (ok (c, k))
    → k ≡ record l { locked = false }
unlocked panic l k c h = absurd (cc h)
unlocked (ok d) l k c h = cc h

Step-IsExclusive : {m k : Machine} → IsExclusive m → Step m k → IsExclusive k
unfolding holding acquire_begin test_and_set acquire_end release_begin release_end
Step-IsExclusive {m} w (begins me c e h) =
    idle-IsExclusive m me (update m.cpus me c) spinning w (ap is_busy e) refl
Step-IsExclusive {m} w (spins me e h) = record { set = λ x b. refl; only = w.only; owner = w.owner }
Step-IsExclusive {m} w (takes me e h) = record {
  set = λ x b. refl;
  only = λ x y b d. ground (arith, w.set x, w.set y, h, b, d);
  owner = λ x. ground (arith, w.owner x, ap is_inside e);
}
Step-IsExclusive {m} w (enters me e) = record {
  set = λ x b. w.set me (ap is_busy e);
  only = λ x y b d. ground (arith, w.only x me, w.only y me, ap is_busy e, b, d);
  owner = λ x. ground (arith, inside-busy (m.phases x), w.only x me, ap is_busy e);
}
Step-IsExclusive {m} w (leaves me l e h) =
    let q : record m.lock { cpu = none } ≡ l =
      ground (arith, h, w.owner me, ap is_inside e, w.set me (ap is_busy e)) in
    subst (λ u. IsExclusive (record m { lock = u; phases = update m.phases me leaving })) q
      (record {
        set = λ x b. w.set me (ap is_busy e);
        only = λ x y b d. ground (arith, w.only x me, w.only y me, ap is_busy e, b, d);
        owner = λ x. ground (arith, inside-busy (m.phases x), w.only x me, ap is_busy e);
      })
Step-IsExclusive {m} w (frees me c l e h) =
    let q : l ≡ record m.lock { locked = false } = unlocked (pop_off (m.cpus me)) m.lock l c h in
    subst
      (λ u.
        IsExclusive
          (record { lock = u; cpus = update m.cpus me c; phases = update m.phases me outside }))
      (sym q)
      (record {
        set = λ x b. ground (arith, w.only x me, ap is_busy e, b);
        only = λ x y b d. ground (arith, w.only x y, b, d);
        owner = λ x. ground (arith, w.owner x, ap is_inside e);
      })
Step-IsExclusive w (nests me) = record { set = w.set; only = w.only; owner = w.owner }
Step-IsExclusive w (unnests me c e) = record { set = w.set; only = w.only; owner = w.owner }

-- However the processors interleave, this is kept: at most one of them is between taking the lock
-- and giving it back, the lock is set while one is, and it names exactly the processor inside.
pub Reach-IsExclusive : {m k : Machine} → IsExclusive m → Reach m k → IsExclusive k
Reach-IsExclusive w here = w
Reach-IsExclusive w (next r st) = Step-IsExclusive (Reach-IsExclusive w r) st

-- With the lock in such a state, `acquire` stops the machine exactly for a processor that is inside already.
pub acquire_begin-panic :
    (m : Machine) (me : ℕ)
    → IsExclusive m
    → (acquire_begin me (m.cpus me) m.lock ≡ panic) ↔ (is_inside (m.phases me) ≡ true)
unfolding acquire_begin holding
acquire_begin-panic m me w = ground (arith, w.owner me, w.set me, inside-busy (m.phases me))

-- With the lock in such a state, `release` stops the machine exactly for a processor that is not inside.
pub release_begin-panic :
    (m : Machine) (me : ℕ)
    → IsExclusive m
    → (release_begin me m.lock ≡ panic) ↔ (is_inside (m.phases me) ≡ false)
unfolding release_begin holding
release_begin-panic m me w = ground (arith, w.owner me, w.set me, inside-busy (m.phases me))
