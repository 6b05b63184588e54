-- ===== src/Proc.antt =====
-- operating_system_engineering/labs/kernel/proc.c: the process table, and what changes a process's
-- state. A pointer is a number: 0 is null, and `&proc[i]` is `i + 1`, also where it is the channel
-- that a parent sleeps on. Each function runs with the locks that it takes, so one call is one step.
-- Memory, files and the trap frame hang from a process and are not here; whether their allocation
-- succeeds is an argument.
pub mod Wake
pub mod Born
pub mod Family
mod Tests
use csklub_os.Base.{
  ℕ, zero, suc, ◌+◌, ◌≡◌, Bool, true, false, not, ◌&&◌, ◌||◌, List, [], ◌∷◌, Option, none, some,
  Outcome, ok, panic, ◌==◌, ◌!=◌, if◌then◌else◌, ℤ, pos, negsuc, get_elem?, set, length,
}

pub data ProcState : Type 0 where
  unused used sleeping runnable running zombie : ProcState

pub record Proc : Type 0 where
  pub state : ProcState
  pub chan : ℕ
  pub killed : Bool
  pub xstate : ℕ
  pub pid : ℕ
  pub parent : ℕ

abbrev pub is_unused : Proc → Bool
is_unused p = elim p.state [ unused ↦ true | _ ↦ false ]

abbrev pub is_sleeping : Proc → Bool
is_sleeping p = elim p.state [ sleeping ↦ true | _ ↦ false ]

abbrev pub is_zombie : Proc → Bool
is_zombie p = elim p.state [ zombie ↦ true | _ ↦ false ]

-- The process after `wakeup(chan)`, if it is not the caller.
unfoldable pub wake : ℕ → Proc → Proc
wake chan p = if is_sleeping p && p.chan == chan then record p { state = runnable } else p

-- `for(p = proc; p < &proc[NPROC]; p++)`; `here` is `p`, and `me` is `myproc()`.
wakeup_loop : ℕ → ℕ → ℕ → List Proc → List Proc
unfolding wake
wakeup_loop chan me here [] = []
wakeup_loop chan me here (p ∷ ps) =
    (if here != me then wake chan p else p) ∷ wakeup_loop chan me (here + 1) ps

unfoldable pub wakeup : ℕ → ℕ → List Proc → List Proc
unfolding wakeup_loop
wakeup chan me ps = wakeup_loop chan me 1 ps

-- The process that `kill` finds.
unfoldable pub kill_proc : Proc → Proc
kill_proc p =
    if is_sleeping p
    then record p { killed = true; state = runnable }
    else record p { killed = true }

-- 0 if there is such a process, -1 otherwise.
unfoldable pub kill : ℕ → List Proc → ℤ × List Proc
unfolding kill_proc
kill pid [] = (negsuc 0, [])
kill pid (p ∷ ps) =
    let rest = kill pid ps in
    if p.pid == pid then (pos 0, kill_proc p ∷ ps) else (rest.0, p ∷ rest.1)

unfoldable pub setkilled : Proc → Proc
setkilled p = record p { killed = true }

unfoldable pub freeproc : Proc → Proc
freeproc p = record p { pid = 0; parent = 0; chan = 0; killed = false; xstate = 0; state = unused }

-- The process that `allocproc` has found, with the `pid` of `allocpid`; `memory` says whether the
-- trap frame and the page table could be allocated.
unfoldable pub init_proc : Bool → ℕ → Proc → Proc
unfolding freeproc
init_proc memory pid p =
    let q = record p { pid = pid; state = used } in if memory then q else freeproc q

-- The loop of `allocproc` from `here` on: the pointer that it returns, whether it took a pid, and
-- the processes.
alloc_loop : Bool → ℕ → ℕ → List Proc → ℕ × Bool × List Proc
unfolding init_proc
alloc_loop memory pid here [] = (0, false, [])
alloc_loop memory pid here (p ∷ ps) =
    let rest = alloc_loop memory pid (here + 1) ps in
    if is_unused p
    then (if memory then here else 0, true, init_proc memory pid p ∷ ps)
    else (rest.0, rest.1, p ∷ rest.2)

-- `nextpid` is an `int`; that it overflows after 2 ^ 31 - 1 processes is left out.
pub record Table : Type 0 where
  pub procs : List Proc
  pub nextpid : ℕ
  pub initproc : ℕ

unfoldable pub allocproc : Bool → Table → ℕ × Table
unfolding alloc_loop
allocproc memory t =
    let r = alloc_loop memory t.nextpid 1 t.procs in
    (r.0, record t { procs = r.2; nextpid = if r.1 then t.nextpid + 1 else t.nextpid })

-- One round of `reparent`, at process `i`, with the waking of the init process.
reparent_round : ℕ → ℕ → ℕ → List Proc → List Proc
unfolding wakeup
reparent_round me init i ps = elim (get_elem? ps i) [
  | none ↦ ps
  | some p ↦ if p.parent == me then wakeup init me (set ps i (record p { parent = init })) else ps
]

reparent_loop : ℕ → ℕ → ℕ → ℕ → List Proc → List Proc
unfolding reparent_round
reparent_loop zero me init i ps = ps
reparent_loop (suc left) me init i ps =
    reparent_loop left me init (i + 1) (reparent_round me init i ps)

unfoldable pub reparent : ℕ → Table → Table
unfolding reparent_loop
reparent me t = record t { procs = reparent_loop (length t.procs) me t.initproc 0 t.procs }

-- A change of the process that the pointer `me` names.
unfoldable pub modify : (Proc → Proc) → ℕ → List Proc → List Proc
modify f zero ps = ps
modify f (suc i) [] = []
modify f (suc zero) (p ∷ ps) = f p ∷ ps
modify f (suc (suc i)) (p ∷ ps) = p ∷ modify f (suc i) ps

abbrev pub parent_of : ℕ → List Proc → ℕ
parent_of zero ps = 0
parent_of (suc i) ps = elim (get_elem? ps i) [ none ↦ 0 | some p ↦ p.parent ]

-- `exit`, from the reparenting on, up to `sched`.
unfoldable pub exit : ℕ → ℕ → Table → Outcome Table
unfolding reparent wakeup modify
exit me status t =
    let t1 = reparent me t in
    if me == t.initproc
    then panic
    else ok (record t1 {
      procs =
          modify (λ p. record p { xstate = status; state = zombie }) me
            (wakeup (parent_of me t1.procs) me t1.procs);
    })

pub data WaitEnd : Type 0 where
  reaped : ℕ → WaitEnd
  no_copy no_child asleep : WaitEnd

-- The scan of `wait`: what it returns if it finds a zombie, `havekids`, and the processes. `copied`
-- says that there is no address for the status, or that its `copyout` works.
unfoldable pub wait_scan : ℕ → Bool → List Proc → Option WaitEnd × Bool × List Proc
unfolding freeproc
wait_scan me copied [] = (none, false, [])
wait_scan me copied (p ∷ ps) =
    let rest = wait_scan me copied ps in
    if p.parent == me
    then if is_zombie p
      then if copied
        then (some (reaped p.pid), true, freeproc p ∷ ps)
        else (some no_copy, true, p ∷ ps)
      else (rest.0, true, p ∷ rest.2)
    else (rest.0, rest.1, p ∷ rest.2)

-- One round of `wait`; `asleep` means that it sleeps on the caller's own channel, and scans again
-- when it is woken.
unfoldable pub wait : ℕ → Bool → Bool → List Proc → WaitEnd × List Proc
unfolding wait_scan modify
wait me copied me_killed ps =
    let r = wait_scan me copied ps in
    elim r.0 [
      | some e ↦ (e, r.2)
      | none ↦
          if not r.1 || me_killed
          then (no_child, r.2)
          else (asleep, modify (λ p. record p { chan = me; state = sleeping }) me r.2)
    ]

-- `memory` is for `allocproc`, and `copied` says whether `uvmcopy` works.
unfoldable pub fork : ℕ → Bool → Bool → Table → ℤ × Table
unfolding allocproc modify freeproc
fork me memory copied t =
    let (np, t1) = allocproc memory t in
    if np == 0
    then (negsuc 0, t1)
    else if not copied
    then (negsuc 0, record t1 { procs = modify freeproc np t1.procs })
    else (
      pos t.nextpid,
      record t1 { procs = modify (λ p. record p { parent = me; state = runnable }) np t1.procs },
    )
