-- ===== src/Pipe/Fifo.antt =====
-- A pipe as a channel between its writers and its readers.
use csklub_os.Base.{ℕ, ◌-◌, ◌≡◌, refl, arith, Bool, List, [], ◌∷◌, ◌++◌, Option}
use csklub_os.Pipe.{Pipe, pipewrite, piperead, pipeclose, new_pipe}
use csklub_os.Pipe.Queue.{held, contents, IsValid}
use csklub_os.Pipe.Write.{source}

-- The runs of the pipe's functions, in the order in which they get its lock. `writes` goes from
-- index `i` on, for `left` bytes.
pub data Run : Type 0 where
  writes : (copyin : ℕ → Option ℕ) (killed : Bool) (addr left i : ℕ) → Run
  reads : (copyout : ℕ → ℕ → Bool) (killed : Bool) (addr n : ℕ) → Run
  closes : (writable : Bool) → Run

pub step : Pipe → Run → Pipe
step p (writes copyin killed addr left i) = (pipewrite copyin killed addr left i p).pipe
step p (reads copyout killed addr n) = (piperead copyout killed addr n p).pipe
step p (closes writable) = (pipeclose p writable).0

-- The bytes that a run puts in: as many as the pipe then holds more.
pub bytes_in : Pipe → Run → List ℕ
unfolding step
bytes_in p (writes copyin killed addr left i) =
    source copyin addr i (held (step p (writes copyin killed addr left i)) - held p)
bytes_in p (reads copyout killed addr n) = []
bytes_in p (closes writable) = []

-- The bytes that a run takes out: those that it sent to its reader, and one that a fault lost.
pub bytes_out : Pipe → Run → List ℕ
bytes_out p (writes copyin killed addr left i) = []
bytes_out p (reads copyout killed addr n) =
    (piperead copyout killed addr n p).sent ++ (piperead copyout killed addr n p).lost
bytes_out p (closes writable) = []

pub run : Pipe → List Run → Pipe
run p [] = p
run p (r ∷ rs) = run (step p r) rs

pub all_in : Pipe → List Run → List ℕ
all_in p [] = []
all_in p (r ∷ rs) = bytes_in p r ++ all_in (step p r) rs

pub all_out : Pipe → List Run → List ℕ
all_out p [] = []
all_out p (r ∷ rs) = bytes_out p r ++ all_out (step p r) rs

-- A new pipe is valid and empty.
pub new_pipe-IsValid : (page : ℕ → ℕ) → IsValid (new_pipe page) × (contents (new_pipe page) ≡ [])
unfolding new_pipe
new_pipe-IsValid page = (omega arith, refl)
