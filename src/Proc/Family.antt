-- ===== src/Proc/Family.antt =====
-- Parents and children: what `wait` finds, and whom `reparent` moves.
use csklub_os.Base.{
  ℕ, zero, suc, ◌+◌, ◌≤◌, ◌<◌, ◌≡◌, inl, inr, refl, sym, ◌∙◌, ap, arith, Bool, true, false, not,
  ◌||◌, ◌&&◌, List, [], ◌∷◌, ◌++◌, Option, none, some, ◌==◌, ltb, leb, if◌then◌else◌, All, All-map,
  length, Bool-cases, get_elem?, set, Option-cases, ◌!=◌, ==_iff, dec_lt,
}
use mathlib.Core.Option
use csklub_os.Proc.{
  Proc, Table, is_sleeping, runnable, WaitEnd, reaped, no_copy, no_child, asleep, is_zombie, unused,
  zombie, sleeping, freeproc, wait, wait_scan, modify, reparent, reparent_loop, reparent_round,
  wakeup,
}
use csklub_os.Proc.Wake.{wakeup-get}

-- The process is not a child of `me` that has exited.
abbrev pub NotExited : ℕ → Proc → Type 0
NotExited me p = (p.parent == me && is_zombie p) ≡ false

-- Has `me` a child?
pub any_child : ℕ → List Proc → Bool
any_child me [] = false
any_child me (p ∷ ps) = p.parent == me || any_child me ps

-- The slot of `p` when it is free again, in the fields that a process has here.
abbrev pub emptied : Proc → Proc
emptied p = record { state = unused; chan = 0; killed = false; xstate = 0; pid = 0; parent = 0 }

-- What a scan by `me` finds.
pub data Scan (me : ℕ) (copied : Bool) (ps : List Proc) (r : Option WaitEnd × Bool × List Proc)
    : Type 0 where
  nothing :
      All (NotExited me) ps → r.0 ≡ none → r.1 ≡ any_child me ps → r.2 ≡ ps → Scan me copied ps r
  exited :
      (xs : List Proc) (p : Proc) (ys : List Proc)
      → ps ≡ xs ++ p ∷ ys
      → All (NotExited me) xs
      → p.parent ≡ me
      → is_zombie p ≡ true
      → r.0 ≡ some (if copied then reaped p.pid else no_copy)
      → r.2 ≡ xs ++ (if copied then emptied p else p) ∷ ys
      → Scan me copied ps r

Scan-cons :
    (me : ℕ) (copied : Bool) (p : Proc) (ps : List Proc)
    → NotExited me p
    → Scan me copied ps (wait_scan me copied ps)
    → Scan me copied (p ∷ ps) (wait_scan me copied (p ∷ ps))
unfolding wait_scan any_child
Scan-cons me copied p ps h (nothing a n k e) =
    nothing (h, a) (ground arith) (ground arith) (ground arith)
Scan-cons me copied p ps h (exited xs q ys e a f z n l) =
    exited (p ∷ xs) q ys (ap (◌∷◌ p) e) (h, a) f z (ground arith) (ground arith)

wait_scan-Scan :
    (me : ℕ) (copied : Bool) (ps : List Proc) → Scan me copied ps (wait_scan me copied ps)
unfolding wait_scan any_child freeproc
wait_scan-Scan me copied [] = nothing tt refl refl refl
wait_scan-Scan me copied (p ∷ ps) = elim (Bool-cases (p.parent == me && is_zombie p)) [
  | inl hit ↦ exited [] p ps refl tt (ground arith) (ground arith) (ground arith) (ground arith)
  | inr miss ↦ Scan-cons me copied p ps miss (wait_scan-Scan me copied ps)
]

-- The process is a child of `me` that has exited.
abbrev pub IsExited : ℕ → Proc → Type 0
IsExited me p = (p.parent ≡ me) × (p.state ≡ zombie)

is_zombie-state : (p : Proc) → is_zombie p ≡ true → p.state ≡ zombie
is_zombie-state p h = ground (arith, h)

NotExited-IsExited : (me : ℕ) (p : Proc) → NotExited me p → ¬ IsExited me p
NotExited-IsExited me p h (parent, state) = ground (arith, h, parent, state)

modify-get :
    (f : Proc → Proc) (me j : ℕ) (ps : List Proc)
    → get_elem? (modify f me ps) j
      ≡ (if suc j == me then Option.map f (get_elem? ps j) else get_elem? ps j)
unfolding modify
modify-get f zero j ps = ground arith
modify-get f (suc i) j [] = ground arith
modify-get f (suc zero) zero (p ∷ ps) = ground arith
modify-get f (suc zero) (suc j) (p ∷ ps) = ground arith
modify-get f (suc (suc i)) zero (p ∷ ps) = ground arith
modify-get f (suc (suc i)) (suc j) (p ∷ ps) = ground (arith, modify-get f (suc i) j ps)

-- What one round of `wait` may come to.
pub data Waited (me : ℕ) (copied killed : Bool) (ps : List Proc) (r : WaitEnd × List Proc)
    : Type 0 where
  reaps :
      (xs : List Proc) (p : Proc) (ys : List Proc)
      → ps ≡ xs ++ p ∷ ys
      → All (λ q. ¬ IsExited me q) xs
      → IsExited me p
      → r ≡ (if copied then reaped p.pid else no_copy, xs ++ (if copied then emptied p else p) ∷ ys)
      → Waited me copied killed ps r
  gives_up :
      All (λ q. ¬ IsExited me q) ps
      → not (any_child me ps) || killed ≡ true
      → r ≡ (no_child, ps)
      → Waited me copied killed ps r
  sleeps :
      All (λ q. ¬ IsExited me q) ps
      → any_child me ps ≡ true
      → killed ≡ false
      → r.0 ≡ asleep
      → ((j : ℕ)
          → get_elem? r.1 j ≡ (
              if suc j == me
              then Option.map {A = Proc}
                  (λ p. record p { chan = me; state = sleeping })
                  (get_elem? ps j)
              else get_elem? ps j))
      → Waited me copied killed ps r

-- A round of `wait` finds the first child that has exited, and then leaves its slot unused, with the pid,
-- the parent, the channel, the exit status and the killed flag at 0, and returns its pid, or fails and leaves it, where its status cannot be copied out. Without such a child it gives up
-- exactly if the caller has no child or is killed, and sleeps on its own channel otherwise; no other
-- process changes.
pub wait-Waited :
    (me : ℕ) (copied killed : Bool) (ps : List Proc)
    → Waited me copied killed ps (wait me copied killed ps)
unfolding wait
wait-Waited me copied killed ps = elim (wait_scan-Scan me copied ps) [
  | nothing a n k e ↦
      let b = All-map (NotExited me) (λ q. ¬ IsExited me q) ps (NotExited-IsExited me) a in
      elim (Bool-cases (not (any_child me ps) || killed)) [
        | inl up ↦ gives_up b up (ground arith)
        | inr on ↦
            let f : Proc → Proc = λ p. record p { chan = me; state = sleeping } in
            let does : wait me copied killed ps ≡ (asleep, modify f me ps) =
              ground (arith, on, n, k, e) in
            sleeps b (ground (arith, on)) (ground (arith, on)) (ap (λ r. r.0) does)
              (λ j. ap (λ r. get_elem? r.1 j) does ∙ modify-get f me j ps)
      ]
  | exited xs p ys e a f z n l ↦
      reaps xs p ys e (All-map (NotExited me) (λ q. ¬ IsExited me q) xs (NotExited-IsExited me) a)
        (f, is_zombie-state p z) (ground arith)
]

-- The parent of the process at `j`.
abbrev pub parent_at : List Proc → ℕ → Option ℕ
parent_at ps j = Option.map (λ p. p.parent) (get_elem? ps j)

parent_at-set :
    (ps : List Proc) (i j : ℕ) (p : Proc)
    → i < length ps
    → parent_at (set ps i p) j ≡ (if j == i then some p.parent else parent_at ps j)
parent_at-set [] i j p lt = absurd (omega arith)
parent_at-set (q ∷ qs) zero zero p lt = refl
parent_at-set (q ∷ qs) zero (suc j) p lt = ground arith
parent_at-set (q ∷ qs) (suc i) zero p lt = ground arith
parent_at-set (q ∷ qs) (suc i) (suc j) p lt = ground (arith, parent_at-set qs i j p)

parent_at-wakeup :
    (chan me j : ℕ) (ps : List Proc) → parent_at (wakeup chan me ps) j ≡ parent_at ps j
parent_at-wakeup chan me j ps =
    ap (Option.map (λ p. p.parent)) (wakeup-get chan me j ps) ∙ same (get_elem? ps j)
  where
    same :
        (o : Option Proc)
        → Option.map {A = Proc}
            (λ p. p.parent)
            (Option.map
              (λ p.
                if 1 + j != me && (is_sleeping p && p.chan == chan)
                then record p { state = runnable }
                else p)
              o)
          ≡ Option.map (λ p. p.parent) o
    same none = refl
    same (some p) = ground arith

-- `old` replaced by `new`.
abbrev pub moved : ℕ → ℕ → Option ℕ → Option ℕ
moved old new o = Option.map (λ q. if q == old then new else q) o

get_elem?-lt : (ps : List Proc) (i : ℕ) (p : Proc) → get_elem? ps i ≡ some p → i < length ps
get_elem?-lt [] i p e = cc
get_elem?-lt (q ∷ qs) zero p e = omega arith
get_elem?-lt (q ∷ qs) (suc i) p e = omega (arith, get_elem?-lt qs i p e)

parent_at-eq :
    (ps : List Proc) (i j : ℕ) (o : Option Proc)
    → get_elem? ps i ≡ o
    → j ≡ i
    → parent_at ps j ≡ Option.map (λ p. p.parent) o
parent_at-eq ps i j o e q = ap (parent_at ps) q ∙ ap (Option.map (λ p. p.parent)) e

-- The slot at `i` is as it was.
kept :
    (me init i j : ℕ) (ps : List Proc) (o : Option Proc)
    → get_elem? ps i ≡ o
    → moved me init (Option.map (λ p. p.parent) o) ≡ Option.map (λ p. p.parent) o
    → parent_at ps j ≡ (if j == i then moved me init (parent_at ps j) else parent_at ps j)
kept me init i j ps o e m = elim (Bool-cases (j == i)) [
  | inl q ↦
      rw q (
        let at = parent_at-eq ps i j o e ((==_iff j i).0 q) in at ∙ sym (ap (moved me init) at ∙ m))
  | inr q ↦ rw q
]

-- The slot at `i` had the parent `me`.
changed :
    (me init i j : ℕ) (ps : List Proc) (p : Proc)
    → get_elem? ps i ≡ some p
    → (p.parent == me) ≡ true
    → (if j == i then some init else parent_at ps j)
      ≡ (if j == i then moved me init (parent_at ps j) else parent_at ps j)
changed me init i j ps p e hit = elim (Bool-cases (j == i)) [
  | inl q ↦
      rw q (sym (ap (moved me init) (parent_at-eq ps i j (some p) e ((==_iff j i).0 q)) ∙ rw hit))
  | inr q ↦ rw q
]

reparent_round-parent :
    (me init i j : ℕ) (ps : List Proc)
    → parent_at (reparent_round me init i ps) j
      ≡ (if j == i then moved me init (parent_at ps j) else parent_at ps j)
unfolding reparent_round
reparent_round-parent me init i j ps = elim (Option-cases (get_elem? ps i)) [
  | inl e ↦ rw (e, reparent_round) (kept me init i j ps none e refl)
  | inr (p, e) ↦
      rw (e, reparent_round)
        (elim (Bool-cases (p.parent == me)) [
          | inl hit ↦ rw hit (
              parent_at-wakeup init me j (set ps i (record p { parent = init }))
              ∙ parent_at-set ps i j (record p { parent = init }) (get_elem?-lt ps i p e)
              ∙ changed me init i j ps p e hit)
          | inr miss ↦ rw miss (kept me init i j ps (some p) e (rw miss))
        ])
]

reparent_loop-parent :
    (left me init i j : ℕ) (ps : List Proc)
    → parent_at (reparent_loop left me init i ps) j
      ≡ (if leb i j && ltb j (i + left) then moved me init (parent_at ps j) else parent_at ps j)
unfolding reparent_loop
reparent_loop-parent zero me init i j ps = ground arith
reparent_loop-parent (suc left) me init i j ps = ground (
  arith,
  reparent_loop-parent left me init (i + 1) j (reparent_round me init i ps),
  reparent_round-parent me init i j ps,
)

beyond : (ps : List Proc) (j : ℕ) → length ps ≤ j → get_elem? ps j ≡ none
beyond [] j h = refl
beyond (p ∷ ps) zero h = absurd (omega arith)
beyond (p ∷ ps) (suc j) h = beyond ps j (omega arith)

-- After `reparent`, the processes whose parent was the caller have the init process for a parent,
-- and every other process has the parent that it had.
pub reparent-parent :
    (me j : ℕ) (t : Table)
    → parent_at (reparent me t).procs j ≡ moved me t.initproc (parent_at t.procs j)
unfolding reparent
reparent-parent me j t =
    reparent_loop-parent (length t.procs) me t.initproc 0 j t.procs
    ∙ elim (dec_lt j (length t.procs)) [
      | yes p ↦ ground arith
      | no p ↦ ground (arith, beyond t.procs j)
    ]
