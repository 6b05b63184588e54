-- ===== src/Pipe/Read.antt =====
-- What one run of `piperead` takes from the pipe.
use csklub_os.Base.{
  ℕ, zero, suc, ◌+◌, ◌%◌, ◌^◌, ◌≤◌, ◌≡◌, ◌⊎◌, refl, arith, Bool, true, [], ◌++◌, length,
}
use csklub_os.Pipe.{Pipe, ReadEnd, Taken, piperead, copy_loop, advance, front}
use csklub_os.Pipe.Queue.{contents, IsValid}

-- A run of the copying loop from index `i` on, with at most `left` rounds.
pub record Took (left i : ℕ) (p : Pipe) (t : Taken) : Type 0 where
  pub valid : IsValid t.pipe
  pub bytes : contents p ≡ t.sent ++ t.lost ++ contents t.pipe
  pub ending : t.ending ≡ ReadEnd.returned (i + length t.sent)
  pub few : length t.sent ≤ left
  pub loss : length t.lost ≤ 1
  pub stop : (length t.sent ≡ left) ⊎ (contents t.pipe ≡ []) ⊎ (length t.lost ≡ 1)
  pub kept :
      (t.pipe.readopen ≡ p.readopen) × (t.pipe.writeopen ≡ p.writeopen) × (t.pipe.nwrite ≡ p.nwrite)

-- If no `copyout` fails, nothing is lost.
copy_loop-lossless :
    (copyout : ℕ → ℕ → Bool) (addr left i : ℕ) (p : Pipe)
    → ((a c : ℕ) → copyout a c ≡ true)
    → (copy_loop copyout addr left i p).lost ≡ []
unfolding copy_loop
copy_loop-lossless copyout addr zero i p out = refl
copy_loop-lossless copyout addr (suc left) i p out = ground (
  arith,
  out ((addr + i) % 2 ^ 64) (front p),
  copy_loop-lossless copyout addr left (i + 1) (advance p) out,
)

pub piperead-lossless :
    (copyout : ℕ → ℕ → Bool) (killed : Bool) (addr n : ℕ) (p : Pipe)
    → ((a c : ℕ) → copyout a c ≡ true)
    → (piperead copyout killed addr n p).lost ≡ []
unfolding piperead
piperead-lossless copyout killed addr n p out =
    ground (arith, copy_loop-lossless copyout addr n 0 p out)
