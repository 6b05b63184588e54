-- ===== src/Pipe/Write.antt =====
-- What one run of `pipewrite` puts into the pipe, and why it stops.
use csklub_os.Base.{
  ℕ, zero, suc, ◌+◌, ◌-◌, ◌%◌, ◌^◌, ◌≤◌, ◌<◌, ◌≡◌, inl, inr, refl, sym, ◌∙◌, ap, subst, arith, Bool,
  true, false, ◌||◌, not, List, [], ◌∷◌, ◌++◌, Option, none, some, Option-cases, Bool-cases, length,
  length-append,
}
use mathlib.Core.List.{append-nil, append_assoc}
use csklub_os.Pipe.{Pipe, WriteEnd, Written, pipewrite, put, is_full, pipe_size}
use csklub_os.Pipe.Queue.{
  held, contents, IsValid, put-IsValid, contents-put, length-contents, full-held,
}

-- The bytes that `copyin` gives for the `n` addresses from `addr + i` on, up to the first fault.
unfoldable pub source : (ℕ → Option ℕ) → ℕ → ℕ → ℕ → List ℕ
source copyin addr i zero = []
source copyin addr i (suc n) = elim (copyin ((addr + i) % 2 ^ 64)) [
  | none ↦ []
  | some ch ↦ ch ∷ source copyin addr (i + 1) n
]

-- Why the run that was to write up to index `n` stopped at `j`.
pub data Stopped (copyin : ℕ → Option ℕ) (killed : Bool) (addr n j : ℕ) (p : Pipe)
    : WriteEnd → Type 0 where
  complete : j ≡ n → Stopped copyin killed addr n j p (WriteEnd.returned j)
  fault :
      j < n
      → copyin ((addr + j) % 2 ^ 64) ≡ none
      → Stopped copyin killed addr n j p (WriteEnd.returned j)
  full : j < n → held p ≡ pipe_size → Stopped copyin killed addr n j p (WriteEnd.asleep j)
  closed :
      j < n → not p.readopen || killed ≡ true → Stopped copyin killed addr n j p WriteEnd.failed

-- The run from index `i` on of a valid pipe `p`, with its result.
pub record Wrote (copyin : ℕ → Option ℕ) (killed : Bool) (addr left i : ℕ) (p : Pipe) (w : Written)
    : Type 0 where
  pub reached : ℕ
  pub after : i ≤ reached
  pub valid : IsValid w.pipe
  pub bytes : contents w.pipe ≡ contents p ++ source copyin addr i (reached - i)
  pub count : held w.pipe ≡ held p + (reached - i)
  pub kept :
      (w.pipe.readopen ≡ p.readopen) × (w.pipe.writeopen ≡ p.writeopen) × (w.pipe.nread ≡ p.nread)
  pub stop : Stopped copyin killed addr (i + left) reached w.pipe w.ending

source-none : (copyin : ℕ → Option ℕ) (addr i n : ℕ) → n ≡ 0 → source copyin addr i n ≡ []
unfolding source
source-none copyin addr i zero e = refl
source-none copyin addr i (suc n) e = absurd (omega arith)

source-cons :
    (copyin : ℕ → Option ℕ) (addr i n ch : ℕ)
    → 0 < n
    → copyin ((addr + i) % 2 ^ 64) ≡ some ch
    → source copyin addr i n ≡ ch ∷ source copyin addr (i + 1) (n - 1)
unfolding source
source-cons copyin addr i zero ch h e = absurd (omega arith)
source-cons copyin addr i (suc n) ch h e =
    rw (e, source) (ap (λ k. ch ∷ source copyin addr (i + 1) k) (omega arith))

-- A run that stops at once.
stays :
    (copyin : ℕ → Option ℕ) (killed : Bool) (addr left i : ℕ) (p : Pipe) (e : WriteEnd) (b : Bool)
    → IsValid p
    → Stopped copyin killed addr (i + left) i p e
    → Wrote copyin killed addr left i p (record { ending = e; pipe = p; woken = b })
stays copyin killed addr left i p e b v s = record {
  reached = i;
  after = omega arith;
  valid = v;
  bytes =
      sym (append-nil (contents p))
      ∙ ap (◌++◌ (contents p)) (sym (source-none copyin addr i (i - i) (omega arith)));
  count = omega arith;
  kept = (refl, refl, refl);
  stop = s;
}

-- A run that goes on behind one more byte.
goes_on :
    (copyin : ℕ → Option ℕ) (killed : Bool) (addr left i ch : ℕ) (p : Pipe) (w : Written)
    → IsValid p
    → is_full p ≡ false
    → copyin ((addr + i) % 2 ^ 64) ≡ some ch
    → Wrote copyin killed addr left (i + 1) (put p ch) w
    → Wrote copyin killed addr (suc left) i p w
unfolding put
goes_on copyin killed addr left i ch p w v f e r = record {
  reached = r.reached;
  after = omega (arith, r.after);
  valid = r.valid;
  bytes =
      r.bytes
      ∙ ap (λ k. k ++ source copyin addr (i + 1) (r.reached - (i + 1))) (contents-put p ch v f)
      ∙ append_assoc (contents p) (ch ∷ []) (source copyin addr (i + 1) (r.reached - (i + 1)))
      ∙ ap (◌++◌ (contents p)) (
          sym (
            source-cons copyin addr i (r.reached - i) ch (omega (arith, r.after)) e
            ∙ ap (λ k. ch ∷ source copyin addr (i + 1) k) (omega (arith, r.after))));
  count = omega (
    arith,
    r.count,
    r.after,
    length-contents (put p ch),
    length-contents p,
    ap length (contents-put p ch v f),
    length-append (contents p) (ch ∷ []),
  );
  kept = r.kept;
  stop = subst (λ k. Stopped copyin killed addr k r.reached w.pipe w.ending) (omega arith) r.stop;
}

-- One run of `pipewrite` on a valid pipe appends to its contents exactly the bytes that it read
-- between the index where it started and the one where it stopped, keeps the pipe valid, and leaves
-- the read counter and the two flags alone. It stops because it is done, at a fault of
-- `copyin`, because the pipe is full, or because the reading end is closed or the process killed.
pub pipewrite-Wrote :
    (copyin : ℕ → Option ℕ) (killed : Bool) (addr left i : ℕ) (p : Pipe)
    → IsValid p
    → Wrote copyin killed addr left i p (pipewrite copyin killed addr left i p)
unfolding pipewrite
pipewrite-Wrote copyin killed addr zero i p v =
    stays copyin killed addr zero i p (WriteEnd.returned i) true v (Stopped.complete (omega arith))
pipewrite-Wrote copyin killed addr (suc left) i p v = elim (Bool-cases (not p.readopen || killed)) [
  | inl shut ↦ rw shut (
      stays copyin killed addr (suc left) i p WriteEnd.failed false v
        (Stopped.closed (omega arith) shut))
  | inr open_ ↦ rw open_ (elim (Bool-cases (is_full p)) [
    | inl f ↦ rw f (
        stays copyin killed addr (suc left) i p (WriteEnd.asleep i) true v
          (Stopped.full (omega arith) (full-held p v f)))
    | inr f ↦ rw f (elim (Option-cases (copyin ((addr + i) % 2 ^ 64))) [
      | inl e ↦
          rw (e, pipewrite)
            (stays copyin killed addr (suc left) i p (WriteEnd.returned i) true v
              (Stopped.fault (omega arith) e))
      | inr (ch, e) ↦
          rw (e, pipewrite)
            (goes_on copyin killed addr left i ch p
              (pipewrite copyin killed addr left (i + 1) (put p ch)) v f e
              (pipewrite-Wrote copyin killed addr left (i + 1) (put p ch) (put-IsValid p ch v f)))
    ])
  ])
]
