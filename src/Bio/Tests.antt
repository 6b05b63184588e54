-- ===== src/Bio/Tests.antt =====
-- The cache after `binit`, and after the first `bget`.
use csklub_os.Base.{ℕ, refl, arith, List, [], ◌∷◌, Outcome, ok, panic}
use csklub_os.Bio.{pin_buffer, Buffer, binit, bget}
use csklub_os.Bio.Held.{pins, occurs, Cache, IsCache, Reach, here, next, gets}
use csklub_os.Bio.Stays.{Same, Step-Same}
use csklub_os.Bio.Kept.{Reach-IsCache, binit-IsCache}

abbrev started : Cache
started = record { buffers = binit; holders = [] }

abbrev buffers_of : Outcome (ℕ × List Buffer) → List Buffer
buffers_of (ok (s, bs)) = bs
buffers_of panic = []

abbrev one_got : Cache
one_got = record { buffers = buffers_of (bget 1 5 binit); holders = 0 ∷ [] }

one_got-Reach : Reach started one_got
unfolding bget binit
one_got-Reach =
    next here
      (gets 1 5 0 (buffers_of (bget 1 5 binit)) (λ e. absurd (omega (arith, e))) (omega arith) refl)

Reach-IsCache_example : IsCache one_got
Reach-IsCache_example = Reach-IsCache binit-IsCache one_got-Reach

Step-Same_example : Same 0 1 5 one_got.buffers (pin_buffer 0 one_got.buffers)
unfolding occurs
Step-Same_example =
    Step-Same 0 1 5 (Reach-IsCache binit-IsCache one_got-Reach) (omega arith)
      (pins 0 (omega arith) (omega arith))
