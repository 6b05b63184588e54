-- ===== src/PathName/Scan.antt =====
-- Where a pointer loop stops.
use csklub_os.Base.{ℕ, zero, suc, ◌+◌, ◌<◌, ◌≡◌, ◌∙◌, ap, arith, Bool, true, false, some}
use csklub_os.Memory.{Memory}
use csklub_os.PathName.{skip}

-- The `n` bytes from `a` on pass the test, and the one behind them does not.
pub record Run (go : ℕ → Bool) (m : Memory) (a n : ℕ) : Type 0 where
  pub passes : (j : ℕ) → j < n → go (m (a + j)) ≡ true
  pub stops : go (m (a + n)) ≡ false

-- With more fuel than the run has bytes, the loop stops behind it.
pub skip_run :
    (go : ℕ → Bool) (fuel : ℕ) (m : Memory) (a n : ℕ)
    → n < fuel
    → Run go m a n
    → skip go fuel m a ≡ some (a + n)
unfolding skip
skip_run go zero m a n lt r = absurd (omega arith)
skip_run go (suc fuel) m a zero lt r =
    let off : go (m a) ≡ false = ap (λ k. go (m k)) (omega arith) ∙ r.stops in
    rw off (ap some (omega arith))
skip_run go (suc fuel) m a (suc n) lt r =
    let on : go (m a) ≡ true = ap (λ k. go (m k)) (omega arith) ∙ r.passes 0 (omega arith) in
    rw on (
      skip_run go fuel m (a + 1) n (omega arith) (record {
        passes = λ j l. ap (λ k. go (m k)) (omega arith) ∙ r.passes (suc j) (omega arith);
        stops = ap (λ k. go (m k)) (omega arith) ∙ r.stops;
      })
      ∙ ap some (omega arith))
