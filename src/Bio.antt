-- ===== src/Bio.antt =====
-- operating_system_engineering/labs/kernel/bio.c: the buffer cache. The list from `bcache.head.next`
-- to `bcache.head.prev`, most recently used first, is a list of buffers, and a pointer to a buffer is
-- its index in `bcache.buf`, the field `slot`. `bcache.lock` makes a call one step, up to the
-- buffer's own sleep lock: `acquire_buffer` is the `acquiresleep` that ends `bget`. The disk
-- driver's read is an argument. Devices are told apart by number; the kernel's is ROOTDEV = 1.
pub mod Get
pub mod Totals
pub mod Held
pub mod Unique
pub mod Kept
pub mod Stays
mod Tests
use csklub_os.Base.{
  ℕ, zero, suc, ◌+◌, ◌-◌, ◌%◌, ◌^◌, Bool, true, false, ◌&&◌, not, List, [], ◌∷◌, Option, none, some,
  Outcome, ok, panic, ◌==◌, if◌then◌else◌,
}
use csklub_os.Disk.{Block}

abbrev pub buffer_count : ℕ
buffer_count = 30

pub record Buffer : Type 0 where
  pub slot : ℕ
  pub dev : ℕ
  pub blockno : ℕ
  pub refcnt : ℕ
  pub valid : Bool
  pub locked : Bool
  pub pid : ℕ
  pub contents : Block

-- `for(b = bcache.buf; b < bcache.buf+NBUF; b++)`: each buffer goes to the list's front. The
-- memory is zero at the start.
unfoldable pub binit_loop : ℕ → ℕ → List Buffer → List Buffer
binit_loop zero i bs = bs
binit_loop (suc left) i bs = binit_loop left (i + 1) (
    record {
      slot = i;
      dev = 0;
      blockno = 0;
      refcnt = 0;
      valid = false;
      locked = false;
      pid = 0;
      contents = λ w. 0;
    }
    ∷ bs)

unfoldable pub binit : List Buffer
unfolding binit_loop
binit = binit_loop buffer_count 0 []

abbrev pub holds : ℕ → ℕ → Buffer → Bool
holds dev blockno b = b.dev == dev && b.blockno == blockno

abbrev pub added : Buffer → Buffer
added b = record b { refcnt = (b.refcnt + 1) % 2 ^ 32 }

-- Is the block already cached?
unfoldable pub reuse : ℕ → ℕ → List Buffer → Option (ℕ × List Buffer)
reuse dev blockno [] = none
reuse dev blockno (b ∷ bs) =
    let rest = reuse dev blockno bs in
    if holds dev blockno b
    then some (b.slot, added b ∷ bs)
    else elim rest [ none ↦ none | some r ↦ some (r.0, b ∷ r.1) ]

abbrev pub claimed : ℕ → ℕ → Buffer → Buffer
claimed d n b = record b { dev = d; blockno = n; valid = false; refcnt = 1 }

-- The walk from `bcache.head.prev` back: what comes behind `b` is looked at first.
unfoldable pub recycle : ℕ → ℕ → List Buffer → Option (ℕ × List Buffer)
recycle dev blockno [] = none
recycle dev blockno (b ∷ bs) = elim (recycle dev blockno bs) [
  | some r ↦ some (r.0, b ∷ r.1)
  | none ↦ if b.refcnt == 0 then some (b.slot, claimed dev blockno b ∷ bs) else none
]

-- `bget` up to `acquiresleep`: the buffer, and the list.
unfoldable pub bget : ℕ → ℕ → List Buffer → Outcome (ℕ × List Buffer)
unfolding reuse recycle
bget dev blockno bs = elim (reuse dev blockno bs) [
  | some r ↦ ok r
  | none ↦ elim (recycle dev blockno bs) [ some r ↦ ok r | none ↦ panic ]
]

-- The buffer that a pointer points to.
unfoldable pub at : ℕ → List Buffer → Option Buffer
at s [] = none
at s (b ∷ bs) = let rest = at s bs in if b.slot == s then some b else rest

-- The list with another content of the buffer.
unfoldable pub replace : ℕ → Buffer → List Buffer → List Buffer
replace s c [] = []
replace s c (b ∷ bs) = let rest = replace s c bs in if b.slot == s then c ∷ bs else b ∷ rest

-- The list without the buffer: `b->next->prev = b->prev; b->prev->next = b->next;`.
unfoldable pub unlink : ℕ → List Buffer → List Buffer
unlink s [] = []
unlink s (b ∷ bs) = let rest = unlink s bs in if b.slot == s then bs else b ∷ rest

-- `none` where the process sleeps, to try again.
unfoldable pub acquire_buffer : ℕ → Buffer → Option Buffer
acquire_buffer me b = if b.locked then none else some (record b { locked = true; pid = me })

unfoldable pub holding_buffer : ℕ → Buffer → Bool
holding_buffer me b = b.locked && b.pid == me

-- `bread` from the locked buffer on.
unfoldable pub read_in : (ℕ → ℕ → Block) → Buffer → Buffer
read_in driver b =
    if b.valid then b else record b { contents = driver b.dev b.blockno; valid = true }

-- A pointer that is none to a buffer does not occur; the model stops there.
unfoldable pub brelse : ℕ → ℕ → List Buffer → Outcome (List Buffer)
unfolding at replace unlink holding_buffer
brelse me s bs = elim (at s bs) [
  | none ↦ panic
  | some b ↦
      let c = record b { locked = false; pid = 0; refcnt = (b.refcnt + 2 ^ 32 - 1) % 2 ^ 32 } in
      if not (holding_buffer me b)
      then panic
      else if c.refcnt == 0
      then ok (c ∷ unlink s bs)
      else ok (replace s c bs)
]

unfoldable pub pin_buffer : ℕ → List Buffer → List Buffer
unfolding at replace
pin_buffer s bs = elim (at s bs) [ none ↦ bs | some b ↦ replace s (added b) bs ]

unfoldable pub unpin_buffer : ℕ → List Buffer → List Buffer
unfolding at replace
unpin_buffer s bs = elim (at s bs) [
  | none ↦ bs
  | some b ↦ replace s (record b { refcnt = (b.refcnt + 2 ^ 32 - 1) % 2 ^ 32 }) bs
]
