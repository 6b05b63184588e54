-- ===== src/Fs/Tests.antt =====
-- A disk of eight blocks, of which the first three are in use: the map is block 2.
use csklub_os.Base.{
  ℕ, ◌+◌, ◌≤◌, ◌<◌, ◌≡◌, ◌≢◌, refl, sym, subst, arith, false, [], ok, panic, ◌==◌, if◌then◌else◌,
}
use csklub_os.Disk.{bread, fill, bpin}
use csklub_os.Log.{log_write}
use csklub_os.Fs.Bits.{bit, put_bit}
use csklub_os.Fs.Store.{Superblock, Store, Room, write_block}
use csklub_os.Fs.Bitmap.{
  balloc, balloc_loop, find_bit, take_block, bzero, mark, bfree, used, block_bit, MapUsed,
  map_block,
}
use csklub_os.Fs.Bitmap.Alloc.{Allocated, balloc-Allocated}
use csklub_os.Fs.Bitmap.Release.{bfree-balloc}
use csklub_os.Fs.Inode.{Inode, bmap, direct_count, indirect_count}
use csklub_os.Fs.Inode.Word.{IsDisk}
use csklub_os.Fs.Inode.Map.{Mapped}
use csklub_os.Fs.Inode.Lookup.{bmap-Mapped}

abbrev pub small_disk : Superblock
small_disk = record { size = 8; ninodes = 16; inodestart = 1; bmapstart = 2 }

abbrev pub begun : Store
begun = record {
  log = record { start = 100; size = 30; outstanding = 1; committing = false; blocks = [] };
  device = record {
    disk = λ b w. 0;
    cache = λ b w. if b == 2 then (if w == 0 then 7 else 0) else 0;
    pins = λ b. 0;
    power = 0;
  };
}

pub begun-Room : (k : ℕ) → k ≤ 20 → Room k begun
begun-Room k le = record {
  fits = omega (arith, le);
  area = omega (arith, le);
  small = omega arith;
  busy = omega arith;
  few = omega arith;
}

begun-MapUsed : MapUsed small_disk begun
unfolding block_bit bit bread
begun-MapUsed b lt =
    let e : map_block small_disk b ≡ 2 = omega (arith, lt) in
    subst (λ c. used small_disk begun c ≢ 0) (sym e) (λ z. absurd (omega (arith, z)))

balloc-Allocated_example :
    (n : ℕ) × (t : Store) × (balloc small_disk begun ≡ ok (n, t))
    × Allocated 0 small_disk begun 0 n t
balloc-Allocated_example =
    balloc-Allocated 0 small_disk begun (begun-Room (0 + 1 + 1) (omega arith)) begun-MapUsed

abbrev grown : Store
grown = elim (balloc small_disk begun) [ ok r ↦ r.1 | panic ↦ begun ]

bfree-balloc_example :
    (u : Store) × (bfree small_disk 3 grown ≡ ok u)
    × ((c : ℕ) → c < 8 → used small_disk u c ≡ used small_disk begun c)
unfolding balloc balloc_loop find_bit take_block bzero mark write_block log_write bread fill bpin
    block_bit bit put_bit
bfree-balloc_example =
    bfree-balloc 0 small_disk begun grown 3 (begun-Room (0 + 1 + 1 + 1) (omega arith)) begun-MapUsed
      refl (λ e. absurd (omega (arith, e)))

begun-IsDisk : IsDisk small_disk begun
unfolding block_bit bit bread
begun-IsDisk = record {
  inside = λ c lt. omega (arith, lt);
  map_used = begun-MapUsed;
  boot = λ z. absurd (omega (arith, z));
}

abbrev empty_file : Inode
empty_file = record {
  inum = 3;
  kind = 2;
  major = 0;
  minor = 0;
  nlink = 1;
  size = 0;
  addrs = λ i. 0;
}

bmap-Mapped_example :
    (direct_count + indirect_count ≤ 12 → bmap small_disk empty_file 12 begun ≡ panic)
    × (12 < direct_count + indirect_count
        → (a : ℕ) × (ip' : Inode) × (t : Store) × (bmap small_disk empty_file 12 begun
            ≡ ok (a, ip', t))
          × Mapped small_disk begun empty_file 12 a ip' t
          × Room 0 t)
bmap-Mapped_example =
    bmap-Mapped 0 small_disk begun empty_file 12 (begun-Room (0 + 5) (omega arith)) begun-IsDisk
      (λ nz. absurd (nz refl))
