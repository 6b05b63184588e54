-- ===== src/Proc/Born.antt =====
-- New processes: their pids, and what `fork` hands on of the slot that it takes.
use csklub_os.Base.{
  ℕ, suc, ◌+◌, ◌≡◌, ◌≢◌, refl, ◌∙◌, ap, arith, Bool, true, false, List, [], ◌∷◌, ◌++◌,
  if◌then◌else◌, All, length, pos, ne→==,
}
use csklub_os.Proc.{
  Proc, Table, unused, runnable, is_unused, init_proc, alloc_loop, allocproc, kill, kill_proc, fork,
  modify,
}

-- The first free slot lies behind the processes `xs`, which are in use.
abbrev pub FirstFree : List Proc → Proc → Type 0
FirstFree xs p = All (λ q. is_unused q ≡ false) xs × (p.state ≡ unused)

alloc_loop-first :
    (memory : Bool) (pid here : ℕ) (xs : List Proc) (p : Proc) (ys : List Proc)
    → FirstFree xs p
    → alloc_loop memory pid here (xs ++ p ∷ ys)
      ≡ (if memory then here + length xs else 0, true, xs ++ init_proc memory pid p ∷ ys)
unfolding alloc_loop
alloc_loop-first memory pid here [] p ys (h, e) = ground arith
alloc_loop-first memory pid here (x ∷ xs) p ys (h, e) =
    ground (arith, alloc_loop-first memory pid (here + 1) xs p ys (h.1, e))

modify-at :
    (f : Proc → Proc) (xs : List Proc) (p : Proc) (ys : List Proc)
    → modify f (suc (length xs)) (xs ++ p ∷ ys) ≡ xs ++ f p ∷ ys
unfolding modify
modify-at f [] p ys = refl
modify-at f (x ∷ xs) p ys = ap (◌∷◌ x) (modify-at f xs p ys)

-- A `fork` that finds memory puts the child into the first free slot: with the next pid, the caller as
-- its parent, and runnable. The slot's channel, exit status and `killed` flag stay as they were.
pub fork-child :
    (me : ℕ) (t : Table) (xs : List Proc) (p : Proc) (ys : List Proc)
    → t.procs ≡ xs ++ p ∷ ys
    → FirstFree xs p
    → fork me true true t ≡ (
      pos t.nextpid,
      record t {
        procs = xs ++ record p { pid = t.nextpid; state = runnable; parent = me } ∷ ys;
        nextpid = t.nextpid + 1;
      },
    )
unfolding fork allocproc init_proc
fork-child me t xs p ys e free =
    rw (found, ne→== (suc (length xs)) 0 (omega arith))
      (ap (λ ps. (pos t.nextpid, record t { procs = ps; nextpid = t.nextpid + 1 }))
        (modify-at (λ q. record q { parent = me; state = runnable }) xs (init_proc true t.nextpid p)
          ys))
  where
    found :
        alloc_loop true t.nextpid 1 t.procs
        ≡ (suc (length xs), true, xs ++ init_proc true t.nextpid p ∷ ys)
    found =
        ap (alloc_loop true t.nextpid 1) e
        ∙ alloc_loop-first true t.nextpid 1 xs p ys free
        ∙ ap (λ (k : ℕ). (k, true, xs ++ init_proc true t.nextpid p ∷ ys)) (omega arith)

kill-first :
    (pid : ℕ) (xs : List Proc) (p : Proc) (ys : List Proc)
    → All (λ q. q.pid ≢ pid) xs
    → p.pid ≡ pid
    → kill pid (xs ++ p ∷ ys) ≡ (pos 0, xs ++ kill_proc p ∷ ys)
unfolding kill
kill-first pid [] p ys h e = ground arith
kill-first pid (x ∷ xs) p ys h e = ground (arith, kill-first pid xs p ys h.1 e)

kill_proc-free : (p : Proc) → p.state ≡ unused → kill_proc p ≡ record p { killed = true }
unfolding kill_proc
kill_proc-free p e = ground arith

-- `kill(0)` on a table whose first entry with pid 0 is its first free slot reports success, and the
-- next process that is born in that slot is killed from the start: `allocproc` does not clear the
-- flag.
pub kill_zero-fork :
    (me : ℕ) (t : Table) (xs : List Proc) (p : Proc) (ys : List Proc)
    → t.procs ≡ xs ++ p ∷ ys
    → FirstFree xs p
    → p.pid ≡ 0
    → All (λ q. q.pid ≢ 0) xs
    → let (status, ps) = kill 0 t.procs in
      let (pid, u) = fork me true true (record t { procs = ps }) in
      (status ≡ pos 0)
      × (pid ≡ pos t.nextpid)
      × (u.procs
          ≡ xs ++ record p { pid = t.nextpid; state = runnable; parent = me; killed = true } ∷ ys)
kill_zero-fork me t xs p ys e free zero_ others =
    (ap (λ r. r.0) killed_, ap (λ r. r.0) child, ap (λ r. r.1.procs) child)
  where
    killed_ : kill 0 t.procs ≡ (pos 0, xs ++ record p { killed = true } ∷ ys)
    killed_ =
        ap (kill 0) e
        ∙ kill-first 0 xs p ys others zero_
        ∙ ap (λ q. (pos 0, xs ++ q ∷ ys)) (kill_proc-free p free.1)

    child : fork me true true (record t { procs = (kill 0 t.procs).1 }) ≡ (
      pos t.nextpid,
      record t {
        procs =
            xs ++ record p { pid = t.nextpid; state = runnable; parent = me; killed = true } ∷ ys;
        nextpid = t.nextpid + 1;
      },
    )
    child =
        fork-child me (record t { procs = (kill 0 t.procs).1 }) xs (record p { killed = true }) ys
          (ap (λ r. r.1) killed_) free
