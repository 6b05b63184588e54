-- ===== src/Log/Reserve.antt =====
-- The log space that `begin_op` reserves. Each operation under way has a budget of blocks that it
-- may still add to the log, at most MAXOPBLOCKS from its `begin_op` on.
use csklub_os.Base.{
  ℕ, suc, ◌+◌, ◌*◌, ◌^◌, ◌≤◌, ◌<◌, ◌≡◌, ◌↔◌, inl, inr, refl, sym, ◌∙◌, ap, subst, arith, Bool, true,
  false, List, [], ◌∷◌, ◌++◌, length, length-append, All, mem, some, ◌==◌, Bool-cases, ok, panic,
  if◌then◌else◌,
}
use csklub_os.Disk.{Device}
use csklub_os.Log.{Log, begin_op, end_op_begin, end_op_commit, log_write, max_op_blocks, log_size}

pub record Transactions : Type 0 where
  pub log : Log
  pub device : Device
  pub budgets : List ℕ

unfoldable pub sum : List ℕ → ℕ
sum [] = 0
sum (x ∷ xs) = x + sum xs

sum-cons : (x : ℕ) (xs : List ℕ) → sum (x ∷ xs) ≡ x + sum xs
unfolding sum
sum-cons x xs = refl

empty-of-length : (xs : List ℕ) → length xs ≡ 0 → xs ≡ []
empty-of-length [] e = refl
empty-of-length (x ∷ xs) e = absurd (omega arith)

sum-append : (xs ys : List ℕ) → sum (xs ++ ys) ≡ sum xs + sum ys
unfolding sum
sum-append [] ys = omega arith
sum-append (x ∷ xs) ys = omega (arith, sum-append xs ys)

sum-le : (xs : List ℕ) → All (λ x. x ≤ max_op_blocks) xs → sum xs ≤ length xs * max_op_blocks
unfolding sum
sum-le [] h = omega arith
sum-le (x ∷ xs) h = omega (arith, sum-le xs h.1)

All-append : (P : ℕ → Type 0) (xs ys : List ℕ) → All P xs → All P ys → All P (xs ++ ys)
All-append P [] ys h k = k
All-append P (x ∷ xs) ys h k = (h.0, All-append P xs ys h.1 k)

All-split : (P : ℕ → Type 0) (xs ys : List ℕ) → All P (xs ++ ys) → All P xs × All P ys
All-split P [] ys h = (tt, h)
All-split P (x ∷ xs) ys h = let r = All-split P xs ys h.1 in ((h.0, r.0), r.1)

-- What an operation may do next. `writes` is a `log_write` within the budget; a block that is in
-- the log already costs nothing.
pub data Step (s : Transactions) : Transactions → Type 0 where
  begins :
      (l : Log)
      → begin_op s.log ≡ some l
      → Step s (record s { log = l; budgets = max_op_blocks ∷ s.budgets })
  writes :
      (xs ys : List ℕ) (u b : ℕ) (l : Log) (d : Device)
      → s.budgets ≡ xs ++ suc u ∷ ys
      → log_write s.log s.device b ≡ ok (l, d)
      → Step s (record {
        log = l;
        device = d;
        budgets = xs ++ (if mem b s.log.blocks then suc u else u) ∷ ys;
      })
  ends :
      (xs ys : List ℕ) (u : ℕ) (l : Log) (c : Bool)
      → s.budgets ≡ xs ++ u ∷ ys
      → end_op_begin s.log ≡ ok (l, c)
      → Step s (record s { log = l; budgets = xs ++ ys })
  commits :
      s.log.committing ≡ true
      → Step s (record s {
        log = (end_op_commit s.log s.device).0;
        device = (end_op_commit s.log s.device).1;
      })

pub data Reach (s : Transactions) : Transactions → Type 0 where
  here : Reach s s
  next : {t u : Transactions} → Reach s t → Step t u → Reach s u

-- The blocks in the log and the budgets of the operations under way fit the log.
pub record Reserved (s : Transactions) : Type 0 where
  pub fits : length s.log.blocks + sum s.budgets ≤ log_size
  pub small : All (λ x. x ≤ max_op_blocks) s.budgets
  pub counted : s.log.outstanding ≡ length s.budgets
  pub few : s.log.outstanding ≤ 3
  pub quiet : s.log.committing ≡ true → s.budgets ≡ []

begin-lem :
    (l l' : Log)
    → l.outstanding ≤ 3
    → length l.blocks ≤ log_size
    → begin_op l ≡ some l'
    → (l.committing ≡ false)
      × (length l.blocks + (l.outstanding + 1) * max_op_blocks ≤ log_size)
      × (l'.blocks ≡ l.blocks)
      × (l'.outstanding ≡ l.outstanding + 1)
      × (l'.committing ≡ false)
unfolding begin_op
begin-lem l l' h k e = ground arith

write-lem :
    (l l' : Log) (d d' : Device) (b : ℕ)
    → log_write l d b ≡ ok (l', d')
    → (l'.blocks ≡ (if mem b l.blocks then l.blocks else l.blocks ++ b ∷ []))
      × (l'.outstanding ≡ l.outstanding)
      × (l'.committing ≡ l.committing)
unfolding log_write
write-lem l l' d d' b e = ground arith

end-lem :
    (l l' : Log) (c : Bool)
    → 0 < l.outstanding
    → l.outstanding ≤ 3
    → end_op_begin l ≡ ok (l', c)
    → (l'.blocks ≡ l.blocks)
      × (l'.outstanding + 1 ≡ l.outstanding)
      × (l'.committing ≡ true → l.outstanding ≡ 1)
unfolding end_op_begin
end-lem l l' c h k e = ground arith

commit-lem :
    (l : Log) (d : Device)
    → (length (end_op_commit l d).0.blocks ≤ length l.blocks)
      × ((end_op_commit l d).0.outstanding ≡ l.outstanding)
      × ((end_op_commit l d).0.committing ≡ false)
unfolding end_op_commit
commit-lem l d = ground arith

parts :
    (s : Transactions) (xs ys : List ℕ) (u : ℕ)
    → s.budgets ≡ xs ++ u ∷ ys
    → Reserved s
    → (length s.budgets ≡ length xs + suc (length ys))
      × (sum s.budgets ≡ sum xs + (u + sum ys))
      × All (λ x. x ≤ max_op_blocks) xs
      × (u ≤ max_op_blocks)
      × All (λ x. x ≤ max_op_blocks) ys
unfolding sum
parts s xs ys u e r =
    let a =
      All-split (λ x. x ≤ max_op_blocks) xs (u ∷ ys)
        (subst (All (λ x. x ≤ max_op_blocks)) e r.small) in
    (ap length e ∙ length-append xs (u ∷ ys), ap sum e ∙ sum-append xs (u ∷ ys), a.0, a.1.0, a.1.1)

-- Every step keeps the log space reserved.
Step-Reserved : {s t : Transactions} → Step s t → Reserved s → Reserved t
Step-Reserved {s} (begins l e) r =
    let k = begin-lem s.log l r.few (omega (arith, r.fits)) e in
    let few : s.log.outstanding + 1 ≤ 3 = omega (arith, k.1) in
    record {
      fits = omega (
        arith,
        ap length k.2,
        k.1,
        r.counted,
        sum-cons max_op_blocks s.budgets,
        sum-le s.budgets r.small,
      );
      small = (omega arith, r.small);
      counted = omega (arith, k.3, r.counted);
      few = omega (arith, k.3);
      quiet = λ q. cc (k.4);
    }
Step-Reserved {s} (writes xs ys u b l d e w) r =
    let k = write-lem s.log l s.device d b w in
    let p = parts s xs ys (suc u) e r in
    let v = if mem b s.log.blocks then suc u else u in
    record {
      fits = ground (
        arith,
        ap length k.0,
        length-append s.log.blocks (b ∷ []),
        sum-append xs (v ∷ ys),
        sum-cons v ys,
        p.1,
        r.fits,
      );
      small = All-append (λ x. x ≤ max_op_blocks) xs (v ∷ ys) p.2 (ground (arith, p.3), p.4);
      counted = omega (arith, k.1, r.counted, p.0, length-append xs (v ∷ ys));
      few = omega (arith, k.1, r.few);
      quiet = λ q. absurd (omega (arith, p.0, ap length (r.quiet (sym k.2 ∙ q))));
    }
Step-Reserved {s} (ends xs ys u l c e w) r =
    let p = parts s xs ys u e r in
    let k = end-lem s.log l c (omega (arith, r.counted, p.0)) r.few w in
    record {
      fits = omega (arith, ap length k.0, sum-append xs ys, p.1, r.fits);
      small = All-append (λ x. x ≤ max_op_blocks) xs ys p.2 p.4;
      counted = omega (arith, k.1, r.counted, p.0, length-append xs ys);
      few = omega (arith, k.1, r.few);
      quiet = λ q.
          empty-of-length (xs ++ ys) (omega (arith, k.2 q, r.counted, p.0, length-append xs ys));
    }
Step-Reserved {s} (commits c) r =
    let k = commit-lem s.log s.device in
    record {
      fits = omega (arith, k.0, r.fits);
      small = r.small;
      counted = k.1 ∙ r.counted;
      few = omega (arith, k.1, r.few);
      quiet = λ q. cc;
    }

-- In every state that the steps reach from one with the space reserved, it is reserved: the blocks
-- in the log and the blocks that the operations under way may still add fit the LOGSIZE blocks of
-- the in-memory header, and the count of operations under way is right.
pub Reach-Reserved : {s t : Transactions} → Reserved s → Reach s t → Reserved t
Reach-Reserved r here = r
Reach-Reserved r (next q st) = Step-Reserved st (Reach-Reserved r q)

-- Where the log space is reserved, a `log_write` of an operation within its budget panics exactly
-- when the log's area on the disk has no block left for it: when `size` is at most `n + 1`.
pub log_write-panic :
    (s : Transactions) (xs ys : List ℕ) (u b : ℕ)
    → Reserved s
    → s.budgets ≡ xs ++ suc u ∷ ys
    → 0 < s.log.size
    → s.log.size < 2 ^ 31
    → (log_write s.log s.device b ≡ panic) ↔ (s.log.size ≤ length s.log.blocks + 1)
unfolding log_write
log_write-panic s xs ys u b r e lo hi =
    let p = parts s xs ys (suc u) e r in
    let room : length s.log.blocks < log_size = omega (arith, p.1, r.fits) in
    let busy : 0 < s.log.outstanding = omega (arith, r.counted, p.0) in
    ground (arith, room, busy, r.few)

-- The log is not committing while an operation is under way.
idle : (s : Transactions) → Reserved s → 0 < length s.budgets → s.log.committing ≡ false
idle s r h = elim (Bool-cases s.log.committing) [
  | inl busy ↦ absurd (omega (arith, ap length (r.quiet busy)))
  | inr free ↦ free
]

-- With the reserved space, an `end_op` does not panic, and it commits exactly when its operation is
-- the last one under way.
pub end_op-last :
    (s : Transactions) (xs ys : List ℕ) (u : ℕ)
    → Reserved s
    → s.budgets ≡ xs ++ u ∷ ys
    → end_op_begin s.log
      ≡ ok (
        record s.log { outstanding = length (xs ++ ys); committing = length (xs ++ ys) == 0 },
        length (xs ++ ys) == 0,
      )
unfolding end_op_begin
end_op-last s xs ys u r e =
    let p = parts s xs ys u e r in
    let n = length-append xs ys in
    let awake : s.log.committing ≡ false = idle s r (omega (arith, p.0)) in
    ground (arith, awake, n, p.0, r.counted, r.few)
