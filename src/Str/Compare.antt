-- ===== src/Str/Compare.antt =====
-- What `strncmp` and `strlen` answer about the NUL-terminated texts that they read.
use csklub_os.Base.{
  ℕ, zero, suc, ◌+◌, ◌<◌, ◌≡◌, ◌≢◌, ◌↔◌, refl, ◌∙◌, ap, arith, Bool-cases, ◌&&◌, ◌==◌, ◌!=◌, some,
  pos, sub_ℕ, inl, inr,
}
use csklub_os.Memory.{Memory}
use csklub_os.Str.{strncmp, strlen, strlen_from}

-- The texts at `p` and `q` agree in their first `n` bytes, up to the end of the first.
abbrev pub SameText : Memory → ℕ → ℕ → ℕ → Type 0
SameText m p q n = (i : ℕ) → i < n → ((j : ℕ) → j < i → m (p + j) ≢ 0) → m (p + i) ≡ m (q + i)

sub-eq-zero : (a b : ℕ) → sub_ℕ a b ≡ pos 0 → a ≡ b
sub-eq-zero a b h = ground arith

zero-eq-sub : (a b : ℕ) → a ≡ b → sub_ℕ a b ≡ pos 0
zero-eq-sub a b h = ground arith

SameText-zero : (m : Memory) (p q n : ℕ) → SameText m p q (suc n) → m p ≡ m q
SameText-zero m p q n h =
    ap m (omega arith) ∙ h 0 (omega arith) (λ j l. absurd (omega arith)) ∙ ap m (omega arith)

SameText-suc :
    (m : Memory) (p q n : ℕ) → m p ≢ 0 → SameText m p q (suc n) → SameText m (p + 1) (q + 1) n
SameText-suc m p q n ne h i lt before =
    ap m (omega arith) ∙ h (suc i) (omega arith) earlier ∙ ap m (omega arith)
  where
    earlier : (j : ℕ) → j < suc i → m (p + j) ≢ 0
    earlier zero l e = ne (ap m (omega arith) ∙ e)
    earlier (suc j) l e = before j (omega arith) (ap m (omega arith) ∙ e)

SameText-cons :
    (m : Memory) (p q n : ℕ) → m p ≡ m q → SameText m (p + 1) (q + 1) n → SameText m p q (suc n)
SameText-cons m p q n e h zero lt before = ap m (omega arith) ∙ e ∙ ap m (omega arith)
SameText-cons m p q n e h (suc i) lt before =
    ap m (omega arith)
    ∙ h i (omega arith) (λ j l z. before (suc j) (omega arith) (ap m (omega arith) ∙ z))
    ∙ ap m (omega arith)

SameText-end : (m : Memory) (p q n : ℕ) → m p ≡ m q → m p ≡ 0 → SameText m p q n
SameText-end m p q n e z zero lt before = ap m (omega arith) ∙ e ∙ ap m (omega arith)
SameText-end m p q n e z (suc i) lt before =
    absurd (before 0 (omega arith) (ap m (omega arith) ∙ z))

-- `strncmp` returns 0 exactly when the two texts agree in their first `n` bytes, up to the end of
-- the first.
pub strncmp_lem : (n : ℕ) (m : Memory) (p q : ℕ) → (strncmp m p q n ≡ pos 0) ↔ SameText m p q n
unfolding strncmp
strncmp_lem zero m p q = (λ _ i lt before. absurd (omega arith), λ _. refl)
strncmp_lem (suc n) m p q = elim (Bool-cases (m p != 0 && m p == m q)) [
  | inl go ↦ (
    λ z. SameText-cons m p q n (ground arith) ((strncmp_lem n m (p + 1) (q + 1)).0 (rw go at z)),
    λ h. rw go ((strncmp_lem n m (p + 1) (q + 1)).1 (SameText-suc m p q n (ground arith) h)),
  )
  | inr stop ↦ (
    λ z.
        let e : m p ≡ m q = sub-eq-zero (m p) (m q) (rw stop at z) in
        SameText-end m p q (suc n) e (ground arith),
    λ h. rw stop (zero-eq-sub (m p) (m q) (SameText-zero m p q n h)),
  )
]

strlen_from_lem :
    (fuel : ℕ) (m : Memory) (s n k : ℕ)
    → k < fuel
    → m (s + (n + k)) ≡ 0
    → ((j : ℕ) → j < k → m (s + (n + j)) ≢ 0)
    → strlen_from fuel m s n ≡ some (n + k)
unfolding strlen_from
strlen_from_lem zero m s n k lt z before = absurd (omega arith)
strlen_from_lem (suc fuel) m s n zero lt z before =
    let e : m (s + n) ≡ 0 = ap m (omega arith) ∙ z in ground arith
strlen_from_lem (suc fuel) m s n (suc k) lt z before =
    let ne : m (s + n) ≢ 0 = λ e. before 0 (omega arith) (ap m (omega arith) ∙ e) in
    let rest : strlen_from fuel m s (n + 1) ≡ some (n + 1 + k) =
      strlen_from_lem fuel m s (n + 1) k (omega arith) (ap m (omega arith) ∙ z)
        (λ j l e. before (suc j) (omega arith) (ap m (omega arith) ∙ e)) in
    ground arith

-- With more fuel than the text has bytes, `strlen` returns the number of bytes before the first
-- NUL.
pub strlen_lem :
    (fuel : ℕ) (m : Memory) (s k : ℕ)
    → k < fuel
    → m (s + k) ≡ 0
    → ((j : ℕ) → j < k → m (s + j) ≢ 0)
    → strlen fuel m s ≡ some k
unfolding strlen
strlen_lem fuel m s k lt z before =
    strlen_from_lem fuel m s 0 k lt (ap m (omega arith) ∙ z)
      (λ j l e. before j l (ap m (omega arith) ∙ e))
    ∙ ap some (omega arith)
