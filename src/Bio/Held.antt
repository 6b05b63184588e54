-- ===== src/Bio/Held.antt =====
-- The buffers under the kernel's use of them, with the holders of each.
use csklub_os.Base.{
  ℕ, ◌+◌, ◌^◌, ◌≤◌, ◌<◌, ◌≡◌, ◌≢◌, refl, ap, arith, List, [], ◌∷◌, ◌++◌, length, some, ok, ◌==◌,
  if◌then◌else◌,
}
use csklub_os.Disk.{Block}
use csklub_os.Bio.{
  Buffer, bget, at, replace, acquire_buffer, read_in, brelse, pin_buffer, unpin_buffer,
}
use csklub_os.Bio.Totals.{total, is_slot, is_block, references, total-references, Swapped}

-- `holders` has the slot of a buffer once for each `bget` or `bpin` that is not yet undone.
pub record Cache : Type 0 where
  pub buffers : List Buffer
  pub holders : List ℕ

unfoldable pub occurs : ℕ → List ℕ → ℕ
occurs s [] = 0
occurs s (h ∷ hs) = (if h == s then 1 else 0) + occurs s hs

-- What a process may do with the cache. Only a holder gives a buffer back.
pub data Step (k : Cache) : Cache → Type 0 where
  gets :
      (d n s : ℕ) (cs : List Buffer)
      → d ≢ 0
      → length k.holders + 1 < 2 ^ 32
      → bget d n k.buffers ≡ ok (s, cs)
      → Step k (record { buffers = cs; holders = s ∷ k.holders })
  locks :
      (me s : ℕ) (b c : Buffer)
      → at s k.buffers ≡ some b
      → acquire_buffer me b ≡ some c
      → Step k (record k { buffers = replace s c k.buffers })
  reads :
      (driver : ℕ → ℕ → Block) (s : ℕ) (b : Buffer)
      → at s k.buffers ≡ some b
      → Step k (record k { buffers = replace s (read_in driver b) k.buffers })
  releases :
      (me s : ℕ) (xs ys : List ℕ) (cs : List Buffer)
      → k.holders ≡ xs ++ s ∷ ys
      → brelse me s k.buffers ≡ ok cs
      → Step k (record { buffers = cs; holders = xs ++ ys })
  pins :
      (s : ℕ)
      → 0 < occurs s k.holders
      → length k.holders + 1 < 2 ^ 32
      → Step k (record { buffers = pin_buffer s k.buffers; holders = s ∷ k.holders })
  unpins :
      (s : ℕ) (xs ys : List ℕ)
      → k.holders ≡ xs ++ s ∷ ys
      → Step k (record { buffers = unpin_buffer s k.buffers; holders = xs ++ ys })

pub data Reach (k : Cache) : Cache → Type 0 where
  here : Reach k k
  next : {t u : Cache} → Reach k t → Step t u → Reach k u

-- Each buffer is in the list once, no block of a device is in two buffers, and the reference counts
-- are the numbers of holders.
pub record IsCache (k : Cache) : Type 0 where
  pub distinct : (s : ℕ) → total (is_slot s) k.buffers ≤ 1
  pub unique : (d n : ℕ) → d ≢ 0 → total (is_block d n) k.buffers ≤ 1
  pub counted : (s : ℕ) → total (references s) k.buffers ≡ occurs s k.holders
  pub few : length k.holders < 2 ^ 32

pub occurs-append : (s : ℕ) (xs ys : List ℕ) → occurs s (xs ++ ys) ≡ occurs s xs + occurs s ys
unfolding occurs
occurs-append s [] ys = omega arith
occurs-append s (x ∷ xs) ys = omega (arith, occurs-append s xs ys)

pub occurs-length : (s : ℕ) (hs : List ℕ) → occurs s hs ≤ length hs
unfolding occurs
occurs-length s [] = omega arith
occurs-length s (h ∷ hs) = ground (arith, occurs-length s hs)

pub occurs-cons :
    (t s : ℕ) (hs : List ℕ) → occurs t (s ∷ hs) ≡ (if s == t then 1 else 0) + occurs t hs
unfolding occurs
occurs-cons t s hs = refl

pub occurs-middle :
    (t s : ℕ) (hs xs ys : List ℕ)
    → hs ≡ xs ++ s ∷ ys
    → occurs t hs ≡ (if s == t then 1 else 0) + occurs t (xs ++ ys)
occurs-middle t s hs xs ys e =
    omega (
      arith,
      ap (occurs t) e,
      occurs-append t xs (s ∷ ys),
      occurs-append t xs ys,
      occurs-cons t s ys,
    )

-- A change of one buffer that keeps its slot keeps the cache well-formed, if the new block is still
-- the only one and the count follows the holders.
pub swap-IsCache :
    (k : Cache) (b c : Buffer) (cs : List Buffer) (hs : List ℕ)
    → IsCache k
    → Swapped b c k.buffers cs
    → c.slot ≡ b.slot
    → ((d n : ℕ) → d ≢ 0 → total (is_block d n) k.buffers + is_block d n c ≤ 1 + is_block d n b)
    → ((t : ℕ) → occurs t hs + references t b ≡ occurs t k.holders + references t c)
    → length hs < 2 ^ 32
    → IsCache (record { buffers = cs; holders = hs })
swap-IsCache k b c cs hs w x same block count few = record {
  distinct = λ s.
      let e : is_slot s c ≡ is_slot s b = ap (λ u. if u == s then 1 else 0) same in
      omega (arith, w.distinct s, x.before (is_slot s), x.after (is_slot s), e);
  unique = λ d n h. omega (arith, block d n h, x.before (is_block d n), x.after (is_block d n));
  counted =
      λ t. omega (arith, count t, w.counted t, x.before (references t), x.after (references t));
  few = few;
}

-- The count of a buffer in the cache is the number of its holders.
pub refcnt-occurs :
    (k : Cache) (b c : Buffer) (cs : List Buffer)
    → IsCache k
    → Swapped b c k.buffers cs
    → b.refcnt ≡ occurs b.slot k.holders
refcnt-occurs k b c cs w x =
    let here : is_slot b.slot b ≡ 1 = ground arith in
    let mine : references b.slot b ≡ b.refcnt = ground arith in
    let none_else : total (is_slot b.slot) x.rest ≡ 0 =
      omega (arith, w.distinct b.slot, x.before (is_slot b.slot), here) in
    omega (
      arith,
      total-references b.slot x.rest none_else,
      w.counted b.slot,
      x.before (references b.slot),
      mine,
    )
