-- ===== src/Pipe.antt =====
-- operating_system_engineering/labs/kernel/pipe.c: pipes. `nread` and `nwrite` are 32-bit counters
-- that wrap. A function takes a pipe whose lock is held, and runs to the point where the lock is
-- given up: where it returns, or where it sleeps, to be called again with the index that it had
-- reached. `copyin` and `copyout` (kernel/vm.c), of one byte, are arguments, and so is what `killed`
-- answers. A result says whether the other side was woken.
pub mod Queue
pub mod Write
pub mod Read
pub mod Fifo
mod Tests
use csklub_os.Base.{
  ℕ, zero, suc, ◌+◌, ◌-◌, ◌%◌, ◌^◌, ◌≡◌, Bool, true, false, ◌&&◌, ◌||◌, not, List, [], ◌∷◌, Option,
  none, some, ◌==◌, if◌then◌else◌,
}

abbrev pub pipe_size : ℕ
pipe_size = 512

pub record Pipe : Type 0 where
  pub buf : ℕ → ℕ
  pub nread : ℕ
  pub nwrite : ℕ
  pub readopen : Bool
  pub writeopen : Bool

-- The state that `pipealloc` gives a new pipe, over whatever bytes its page holds.
unfoldable pub new_pipe : (ℕ → ℕ) → Pipe
new_pipe page = record { buf = page; nread = 0; nwrite = 0; readopen = true; writeopen = true }

pub data WriteEnd : Type 0 where
  returned : ℕ → WriteEnd
  asleep : ℕ → WriteEnd
  failed : WriteEnd

pub record Written : Type 0 where
  pub ending : WriteEnd
  pub pipe : Pipe
  pub woken : Bool

-- `pi->data[pi->nwrite++ % PIPESIZE] = ch;`
unfoldable pub put : Pipe → ℕ → Pipe
put p ch = record p {
  buf = λ k. if k == p.nwrite % pipe_size then ch else p.buf k;
  nwrite = (p.nwrite + 1) % 2 ^ 32;
}

abbrev pub is_full : Pipe → Bool
is_full p = p.nwrite == (p.nread + pipe_size) % 2 ^ 32

-- `while(i < n)`, with `left` bytes to go.
unfoldable pub pipewrite : (ℕ → Option ℕ) → Bool → ℕ → ℕ → ℕ → Pipe → Written
unfolding put
pipewrite copyin killed addr zero i p = record { ending = returned i; pipe = p; woken = true }
pipewrite copyin killed addr (suc left) i p =
    if not p.readopen || killed
    then record { ending = failed; pipe = p; woken = false }
    else if is_full p
    then record { ending = asleep i; pipe = p; woken = true }
    else elim (copyin ((addr + i) % 2 ^ 64)) [
      | none ↦ record { ending = returned i; pipe = p; woken = true }
      | some ch ↦ pipewrite copyin killed addr left (i + 1) (put p ch)
    ]

pub data ReadEnd : Type 0 where
  returned : ℕ → ReadEnd
  asleep failed : ReadEnd

-- `sent` is what went out by `copyout`, in order; `lost` a byte that was taken and did not.
pub record Taken : Type 0 where
  pub ending : ReadEnd
  pub pipe : Pipe
  pub sent : List ℕ
  pub lost : List ℕ
  pub woken : Bool

-- `ch = pi->data[pi->nread++ % PIPESIZE];`
unfoldable pub front : Pipe → ℕ
front p = p.buf (p.nread % pipe_size)

unfoldable pub advance : Pipe → Pipe
advance p = record p { nread = (p.nread + 1) % 2 ^ 32 }

abbrev pub is_empty : Pipe → Bool
is_empty p = p.nread == p.nwrite

-- `for(i = 0; i < n; i++)`, with `left` bytes to go.
unfoldable pub copy_loop : (ℕ → ℕ → Bool) → ℕ → ℕ → ℕ → Pipe → Taken
unfolding front advance
copy_loop copyout addr zero i p = record {
  ending = returned i;
  pipe = p;
  sent = [];
  lost = [];
  woken = true;
}
copy_loop copyout addr (suc left) i p =
    let rest = copy_loop copyout addr left (i + 1) (advance p) in
    if is_empty p
    then record { ending = returned i; pipe = p; sent = []; lost = []; woken = true }
    else if copyout ((addr + i) % 2 ^ 64) (front p)
    then record rest { sent = front p ∷ rest.sent }
    else record {
      ending = returned i;
      pipe = advance p;
      sent = [];
      lost = front p ∷ [];
      woken = true;
    }

unfoldable pub piperead : (ℕ → ℕ → Bool) → Bool → ℕ → ℕ → Pipe → Taken
unfolding copy_loop
piperead copyout killed addr n p =
    if is_empty p && p.writeopen
    then if killed
      then record { ending = failed; pipe = p; sent = []; lost = []; woken = false }
      else record { ending = asleep; pipe = p; sent = []; lost = []; woken = false }
    else copy_loop copyout addr n 0 p

-- The pipe, and whether its page is freed. Closing the writing end wakes the readers, and closing
-- the reading end the writers.
unfoldable pub pipeclose : Pipe → Bool → Pipe × Bool
pipeclose p writable =
    let q = if writable then record p { writeopen = false } else record p { readopen = false } in
    (q, not q.readopen && not q.writeopen)
