-- ===== src/Fs/Store.antt =====
-- A transaction in progress: the log and the device with its cache.
use csklub_os.Base.{
  ℕ, ◌+◌, ◌^◌, ◌≤◌, ◌<◌, ◌≡◌, arith, false, Outcome, ok, ◌>>=◌, length, length-append, ◌∷◌, [],
  ◌++◌, Bool-cases, inl, inr, mem, ◌==◌,
}
use csklub_os.Disk.{Block, Device, update, bread, fill, bpin}
use csklub_os.Log.{Log, log_write, log_size}

pub record Superblock : Type 0 where
  pub size : ℕ
  pub ninodes : ℕ
  pub inodestart : ℕ
  pub bmapstart : ℕ

pub record Store : Type 0 where
  pub log : Log
  pub device : Device

abbrev pub block : Store → ℕ → Block
block s b = bread s.device b

-- `bp->data` is given the new contents, and `log_write(bp)` follows.
unfoldable pub write_block : Store → ℕ → Block → Outcome Store
write_block s b v = do
  let d = fill s.device b v
  (l, e) ← log_write s.log d b
  ok (record { log = l; device = e })

-- `k` more blocks fit the log, and an operation is under way.
pub record Room (k : ℕ) (s : Store) : Type 0 where
  pub fits : length s.log.blocks + k ≤ log_size
  pub area : length s.log.blocks + k < s.log.size
  pub small : s.log.size < 2 ^ 31
  pub busy : 0 < s.log.outstanding
  pub few : s.log.outstanding < 2 ^ 31

-- The block has the new contents, every other one keeps its own, and one block fewer fits the log.
pub record Wrote (k : ℕ) (s : Store) (b : ℕ) (v : Block) (t : Store) : Type 0 where
  pub here : block t b ≡ v
  pub elsewhere : (c : ℕ) → (c == b) ≡ false → block t c ≡ block s c
  pub room : Room k t

pub write_block-Wrote :
    (k : ℕ) (s : Store) (b : ℕ) (v : Block)
    → Room (k + 1) s
    → (t : Store) × (write_block s b v ≡ ok t) × Wrote k s b v t
unfolding write_block log_write bread fill bpin
write_block-Wrote k s b v r = elim (Bool-cases (mem b s.log.blocks)) [
  | inl logged ↦ (
    record { log = s.log; device = filled },
    ground (arith, r, logged),
    record {
      here = ground arith;
      elsewhere = λ c other. ground (arith, other);
      room = record {
        fits = omega (arith, r.fits);
        area = omega (arith, r.area);
        small = r.small;
        busy = r.busy;
        few = r.few;
      };
    },
  )
  | inr fresh ↦ (
    record {
      log = record s.log { blocks = s.log.blocks ++ b ∷ [] };
      device = record filled { pins = update s.device.pins b (s.device.pins b + 1) };
    },
    ground (arith, r, fresh),
    record {
      here = ground arith;
      elsewhere = λ c other. ground (arith, other);
      room = record {
        fits = omega (arith, r.fits, length-append s.log.blocks (b ∷ []));
        area = omega (arith, r.area, length-append s.log.blocks (b ∷ []));
        small = r.small;
        busy = r.busy;
        few = r.few;
      };
    },
  )
]
  where
    filled : Device
    filled = record s.device { cache = update s.device.cache b v }
