-- ===== src/Fs/Bitmap.antt =====
-- kernel/fs.c, `balloc`, `bfree` and `bzero`: the map of free blocks. Words are little-endian, so
-- bit `bi % 8` of byte `bi / 8` of a block is bit `bi % 32` of its word `bi / 32`.
pub mod Find
pub mod Alloc
pub mod Release
use csklub_os.Base.{
  ℕ, zero, suc, ◌+◌, ◌-◌, ◌/◌, ◌%◌, ◌≢◌, ◌<◌, min, Option, none, some, Outcome, ok, panic, ◌>>=◌,
  ◌==◌, if◌then◌else◌,
}
use csklub_os.Disk.{Block, update}
use csklub_os.Fs.Bits.{bit, put_bit}
use csklub_os.Fs.Store.{Superblock, Store, block, write_block}

-- BPB.
abbrev pub bits_per_block : ℕ
bits_per_block = 8192

-- BBLOCK.
abbrev pub map_block : Superblock → ℕ → ℕ
map_block sb b = b / bits_per_block + sb.bmapstart

unfoldable pub block_bit : Block → ℕ → ℕ
block_bit v bi = bit (v (bi / 32)) (bi % 32)

unfoldable pub mark : Block → ℕ → ℕ → Block
mark v bi x = update v (bi / 32) (put_bit (v (bi / 32)) x (bi % 32))

unfoldable pub bzero : Store → ℕ → Outcome Store
bzero s bno = write_block s bno (λ w. 0)

-- The inner loop of `balloc`: the first clear bit, with `left` bits to go.
unfoldable pub find_bit : ℕ → ℕ → Block → Option ℕ
find_bit zero bi v = none
find_bit (suc left) bi v =
    let rest = find_bit left (bi + 1) v in if block_bit v bi == 0 then some bi else rest

-- What `balloc` does with the clear bit `bi` of the map block for the blocks from `b` on.
unfoldable pub take_block : Superblock → ℕ → ℕ → Store → Outcome (ℕ × Store)
unfolding bzero
take_block sb b bi s = do
  t ← write_block s (map_block sb b) (mark (block s (map_block sb b)) bi 1)
  u ← bzero t (b + bi)
  ok (b + bi, u)

-- The outer loop, with `left` map blocks to go.
unfoldable pub balloc_loop : Superblock → ℕ → ℕ → Store → Outcome (ℕ × Store)
balloc_loop sb zero b s = ok (0, s)
balloc_loop sb (suc left) b s =
    let rest = balloc_loop sb left (b + bits_per_block) s in
    elim (find_bit (min bits_per_block (sb.size - b)) 0 (block s (map_block sb b))) [
      | some bi ↦ take_block sb b bi s
      | none ↦ rest
    ]

-- The block, 0 if there is none. A round is made for each `b` below `sb.size`.
unfoldable pub balloc : Superblock → Store → Outcome (ℕ × Store)
balloc sb s = balloc_loop sb ((sb.size + bits_per_block - 1) / bits_per_block) 0 s

unfoldable pub bfree : Superblock → ℕ → Store → Outcome Store
bfree sb b s =
    let v = block s (map_block sb b) in
    let bi = b % bits_per_block in
    if block_bit v bi == 0 then panic else write_block s (map_block sb b) (mark v bi 0)

-- The bit of a block.
abbrev pub used : Superblock → Store → ℕ → ℕ
used sb s b = block_bit (block s (map_block sb b)) (b % bits_per_block)

-- The blocks of the map are themselves in use.
abbrev pub MapUsed : Superblock → Store → Type 0
MapUsed sb s = (b : ℕ) → b < sb.size → used sb s (map_block sb b) ≢ 0
