-- ===== src/Sleeplock/Guard.antt =====
-- Any number of processes that use one sleep lock.
use csklub_os.Base.{
  ℕ, ◌≡◌, ◌≢◌, refl, sym, ◌∙◌, ap, true, false, ◌==◌, eq→==, ==_iff, if◌then◌else◌, none, some,
  Bool-cases, inl, inr, ◌↔◌, subst, arith,
}
use csklub_os.Sleeplock.{Sleeplock, initsleeplock, acquiresleep, releasesleep, holdingsleep}

-- Where a process stands: `trying` before the test of the lock, `inside` between `acquiresleep` and
-- `releasesleep`.
pub data Phase : Type 0 where
  outside trying sleeping inside : Phase

-- The phase of the process with each pid.
pub record Users : Type 0 where
  pub lock : Sleeplock
  pub phase : ℕ → Phase

abbrev pub moved : ℕ → Phase → (ℕ → Phase) → ℕ → Phase
moved p f phase q = if q == p then f else phase q

-- `wakeup(lk)`.
abbrev pub after_wakeup : Phase → Phase
after_wakeup outside = outside
after_wakeup trying = trying
after_wakeup sleeping = trying
after_wakeup inside = inside

-- Processes call the functions in turn, and only the holder releases the lock. `kill` may after_wakeup a sleeper.
pub data Step (s : Users) : Users → Type 0 where
  begins : (p : ℕ) → s.phase p ≡ outside → Step s (record s { phase = moved p trying s.phase })
  gets :
      (p : ℕ) (lk : Sleeplock)
      → s.phase p ≡ trying
      → acquiresleep p s.lock ≡ some lk
      → Step s (record { lock = lk; phase = moved p inside s.phase })
  sleeps :
      (p : ℕ)
      → s.phase p ≡ trying
      → acquiresleep p s.lock ≡ none
      → Step s (record s { phase = moved p sleeping s.phase })
  kills : (p : ℕ) → s.phase p ≡ sleeping → Step s (record s { phase = moved p trying s.phase })
  releases :
      (p : ℕ)
      → s.phase p ≡ inside
      → Step s (record {
        lock = releasesleep s.lock;
        phase = moved p outside (λ q. after_wakeup (s.phase q));
      })

pub data Reach (s : Users) : Users → Type 0 where
  here : Reach s s
  next : {t u : Users} → Reach s t → Step t u → Reach s u

-- The lock is held by exactly the process that it names, and nobody sleeps on a lock that is free.
pub record IsGuarded (s : Users) : Type 0 where
  pub named : (p : ℕ) → s.phase p ≡ inside → (s.lock.locked ≡ true) × (s.lock.pid ≡ p)
  pub kept : s.lock.locked ≡ true → s.phase s.lock.pid ≡ inside
  pub awake : s.lock.locked ≡ false → (p : ℕ) → s.phase p ≢ sleeping

moved-same : (p : ℕ) (f : Phase) (phase : ℕ → Phase) → moved p f phase p ≡ f
moved-same p f phase = rw (eq→== p p refl) refl

-- A step that keeps the lock, of a process that stays out of it.
stay-IsGuarded :
    (s : Users) (p : ℕ) (f : Phase)
    → IsGuarded s
    → s.phase p ≢ inside
    → f ≢ inside
    → (s.lock.locked ≡ false → f ≢ sleeping)
    → IsGuarded (record s { phase = moved p f s.phase })
stay-IsGuarded s p f w out stays quiet = record {
  named = λ q. elim (Bool-cases (q == p)) [
    | inl same ↦ rw same (λ e. absurd (stays e))
    | inr other ↦ rw other (w.named q)
  ];
  kept = λ locked. elim (Bool-cases (s.lock.pid == p)) [
    | inl same ↦ absurd (out (ap s.phase (sym ((==_iff s.lock.pid p).0 same)) ∙ w.kept locked))
    | inr other ↦ rw other (w.kept locked)
  ];
  awake = λ free q. elim (Bool-cases (q == p)) [
    | inl same ↦ rw same (quiet free)
    | inr other ↦ rw other (w.awake free q)
  ];
}

gets-IsGuarded :
    (s : Users) (p : ℕ) (lk : Sleeplock)
    → IsGuarded s
    → acquiresleep p s.lock ≡ some lk
    → IsGuarded (record { lock = lk; phase = moved p inside s.phase })
unfolding acquiresleep
gets-IsGuarded s p lk w h = elim (Bool-cases s.lock.locked) [
  | inl busy ↦ absurd (cc (rw (acquiresleep, busy) at h))
  | inr free ↦
      let same : record { locked = true; pid = p } ≡ lk = cc (rw (acquiresleep, free) at h) in
      subst (λ l. IsGuarded (record { lock = l; phase = moved p inside s.phase })) same
        record {
          named = λ q. elim (Bool-cases (q == p)) [
            | inl me ↦ λ e. (refl, sym ((==_iff q p).0 me))
            | inr other ↦ rw other (λ e. absurd (cc ((w.named q e).0, free)))
          ];
          kept = λ locked. moved-same p inside s.phase;
          awake = λ no_lock. absurd (cc no_lock);
        }
]

after_wakeup-inside : (f : Phase) → after_wakeup f ≡ inside → f ≡ inside
after_wakeup-inside outside e = absurd (cc e)
after_wakeup-inside trying e = absurd (cc e)
after_wakeup-inside sleeping e = absurd (cc e)
after_wakeup-inside inside e = refl

after_wakeup-awake : (f : Phase) → after_wakeup f ≢ sleeping
after_wakeup-awake outside e = cc e
after_wakeup-awake trying e = cc e
after_wakeup-awake sleeping e = cc e
after_wakeup-awake inside e = cc e

releases-IsGuarded :
    (s : Users) (p : ℕ)
    → IsGuarded s
    → s.phase p ≡ inside
    → IsGuarded (record {
      lock = releasesleep s.lock;
      phase = moved p outside (λ q. after_wakeup (s.phase q));
    })
unfolding releasesleep
releases-IsGuarded s p w holds = record {
  named = λ q. elim (Bool-cases (q == p)) [
    | inl me ↦ rw me (λ e. absurd (cc e))
    | inr other ↦ rw other (λ e.
        let in_q = after_wakeup-inside (s.phase q) e in
        let q_is_p : q ≡ p = sym (w.named q in_q).1 ∙ (w.named p holds).1 in
        absurd (cc (eq→== q p q_is_p, other)))
  ];
  kept = λ locked. absurd (cc locked);
  awake = λ free q. elim (Bool-cases (q == p)) [
    | inl me ↦ rw me (λ e. cc e)
    | inr other ↦ rw other (after_wakeup-awake (s.phase q))
  ];
}

Step-IsGuarded : {s t : Users} → IsGuarded s → Step s t → IsGuarded t
unfolding acquiresleep
Step-IsGuarded {s} w (begins p e) =
    stay-IsGuarded s p trying w (λ i. cc (e, i)) (λ i. cc i) (λ free i. cc i)
Step-IsGuarded {s} w (gets p lk e h) = gets-IsGuarded s p lk w h
Step-IsGuarded {s} w (sleeps p e h) =
    stay-IsGuarded s p sleeping w (λ i. cc (e, i)) (λ i. cc i)
      (λ free i. cc (rw (acquiresleep, free) at h))
Step-IsGuarded {s} w (kills p e) =
    stay-IsGuarded s p trying w (λ i. cc (e, i)) (λ i. cc i) (λ free i. cc i)
Step-IsGuarded {s} w (releases p e) = releases-IsGuarded s p w e

-- Whatever processes do with a sleep lock, and in whatever order: the lock is held by exactly the
-- process that it names, so that no two are inside, and nobody sleeps while it is free, so that no
-- wakeup is lost.
pub Reach-IsGuarded : {s t : Users} → IsGuarded s → Reach s t → IsGuarded t
Reach-IsGuarded w here = w
Reach-IsGuarded w (next r st) = Step-IsGuarded (Reach-IsGuarded w r) st

-- `holdingsleep` tells a process whether it is between `acquiresleep` and `releasesleep`.
pub holdingsleep_iff :
    {s t : Users} (p : ℕ)
    → IsGuarded s
    → Reach s t
    → (holdingsleep p t.lock ≡ true) ↔ (t.phase p ≡ inside)
unfolding holdingsleep
holdingsleep_iff {s} {t} p w r =
    let v = Reach-IsGuarded w r in
    (
      λ h.
          let named : t.lock.pid ≡ p = ground (arith, h) in
          let locked : t.lock.locked ≡ true = ground (arith, h) in
          ap t.phase (sym named) ∙ v.kept locked,
      λ e. let (locked, named) = v.named p e in ground (arith, locked, named),
    )

-- Nobody uses a lock that is new.
pub initsleeplock-IsGuarded : IsGuarded (record { lock = initsleeplock; phase = λ q. outside })
initsleeplock-IsGuarded = record {
  named = λ p e. absurd (cc e);
  kept = λ e. absurd (cc e);
  awake = λ free p e. cc e;
}
