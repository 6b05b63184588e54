-- ===== src/Print/Agree.antt =====
-- The kernel and the user library read a format in the same way.
use csklub_os.Base.{ℕ, ◌+◌, ◌<◌, ◌≡◌, ◌≢◌, false, List, some}
use csklub_os.Memory.{Memory}
use csklub_os.Print.Format.{Call, printf, vprintf}

-- A format of `n` characters at `a`, with a zero behind it.
pub record IsText (m : Memory) (a n : ℕ) : Type 0 where
  pub inside : (k : ℕ) → k < n → m (a + k) ≢ 0
  pub ends : m (a + n) ≡ 0

-- What both loops come to.
abbrev pub Agree : ℕ → ℕ → Memory → ℕ → Type 0
Agree fuel fuel' m a =
    (cs : List Call) × (printf fuel m a ≡ some cs) × (vprintf fuel' m a false ≡ some cs)
