-- ===== src/Proc/Tests.antt =====
-- A small process table: init (pid 1), a shell (pid 2) and its exited child (pid 3), and a free slot.
use csklub_os.Base.{ℕ, ◌≡◌, refl, arith, true, false, List, [], ◌∷◌, ◌++◌, pos}
use csklub_os.Proc.{
  Proc, ProcState, Table, unused, runnable, running, sleeping, zombie, kill, fork, wait, reaped,
}
use csklub_os.Proc.Born.{fork-child, kill_zero-fork}
use csklub_os.Proc.Family.{Waited, wait-Waited}

abbrev proc_of : ProcState → ℕ → ℕ → Proc
proc_of state pid parent = record {
  state = state;
  chan = 0;
  killed = false;
  xstate = 0;
  pid = pid;
  parent = parent;
}

abbrev busy : List Proc
busy = record (proc_of sleeping 1 0) { chan = 1 } ∷ proc_of running 2 1 ∷ proc_of zombie 3 2 ∷ []

abbrev unused_slot : Proc
unused_slot = proc_of unused 0 0

abbrev table : Table
table = record { procs = busy ++ unused_slot ∷ []; nextpid = 4; initproc = 1 }

wait_runs : (wait 2 true false busy).0 ≡ reaped 3
unfolding wait
wait_runs = refl

fork-child_example :
    fork 2 true true table
    ≡ (pos 4, record table { procs = busy ++ proc_of runnable 4 2 ∷ []; nextpid = 5 })
fork-child_example = fork-child 2 table busy unused_slot [] refl ((refl, (refl, (refl, tt))), refl)

kill_zero-fork_example :
    let (status, ps) = kill 0 table.procs in
    let (pid, u) = fork 2 true true (record table { procs = ps }) in
    (status ≡ pos 0)
    × (pid ≡ pos 4)
    × (u.procs ≡ busy ++ record (proc_of runnable 4 2) { killed = true } ∷ [])
kill_zero-fork_example =
    kill_zero-fork 2 table busy unused_slot [] refl ((refl, (refl, (refl, tt))), refl) refl
      (omega arith)

wait-Waited_example : Waited 2 true false busy (wait 2 true false busy)
wait-Waited_example = wait-Waited 2 true false busy
