-- ===== src/Fs/Inode.antt =====
-- kernel/fs.c: the content of an inode, `bmap` and `itrunc`, and `iupdate`. An inode is locked by its
-- caller. A `short` and a `uint` is given by its bit pattern. The device inode has 16 words: type
-- and major, minor and nlink, size, and the addresses.

pub mod Word
pub mod Map
pub mod Lookup
pub mod Codec
use csklub_os.Base.{
  ℕ, zero, suc, ◌+◌, ◌-◌, ◌*◌, ◌/◌, ◌%◌, ◌^◌, ◌<◌, ◌≢◌, Bool, Outcome, ok, panic, ◌>>=◌, ltb, leb,
  ◌&&◌, ◌==◌, if◌then◌else◌,
}
use csklub_os.Disk.{Block, update}
use csklub_os.Fs.Store.{Superblock, Store, block, write_block}
use csklub_os.Fs.Bitmap.{balloc, bfree, used, map_block}

-- NDIRECT and NINDIRECT.
abbrev pub direct_count : ℕ
direct_count = 12

abbrev pub indirect_count : ℕ
indirect_count = 256

pub record Inode : Type 0 where
  pub inum : ℕ
  pub kind : ℕ
  pub major : ℕ
  pub minor : ℕ
  pub nlink : ℕ
  pub size : ℕ
  pub addrs : ℕ → ℕ

-- `if((addr = ip->addrs[i]) == 0)`: the address, with a new block for it.
unfoldable pub ensure_addr : Superblock → Inode → ℕ → Store → Outcome (ℕ × Inode × Store)
ensure_addr sb ip i s =
    if ip.addrs i == 0
    then balloc sb s
      >>= (λ r. ok (r.0, if r.0 == 0 then ip else record ip { addrs = update ip.addrs i r.0 }, r.1))
    else ok (ip.addrs i, ip, s)

-- The same for word `bn` of the indirect block, which is logged when it changes.
unfoldable pub ensure_word : Superblock → ℕ → ℕ → Store → Outcome (ℕ × Store)
ensure_word sb at bn s =
    if block s at bn == 0
    then balloc sb s >>= (λ r.
      if r.0 == 0
      then ok (0, r.1)
      else write_block r.1 at (update (block r.1 at) bn r.0) >>= (λ u. ok (r.0, u)))
    else ok (block s at bn, s)

-- The address, 0 if no block is free.
unfoldable pub bmap : Superblock → Inode → ℕ → Store → Outcome (ℕ × Inode × Store)
unfolding ensure_addr ensure_word
bmap sb ip bn s =
    if ltb bn direct_count
    then ensure_addr sb ip bn s
    else if ltb (bn - direct_count) indirect_count
    then ensure_addr sb ip direct_count s >>= (λ r.
      if r.0 == 0
      then ok (0, r.1, r.2)
      else ensure_word sb r.0 (bn - direct_count) r.2 >>= (λ q. ok (q.0, r.1, q.1)))
    else panic

-- IPB and IBLOCK.
abbrev pub inodes_per_block : ℕ
inodes_per_block = 16

abbrev pub inode_block : Superblock → ℕ → ℕ
inode_block sb i = i / inodes_per_block + sb.inodestart

-- The words of a device inode.
abbrev pub inode_word : Inode → ℕ → ℕ
inode_word ip w =
    if w == 0
    then ip.kind + 2 ^ 16 * ip.major
    else if w == 1
    then ip.minor + 2 ^ 16 * ip.nlink
    else if w == 2
    then ip.size
    else ip.addrs (w - 3)

-- A block with the inode in its place, `dip = (struct dinode*)bp->data + ip->inum%IPB`.
unfoldable pub put_inode : Block → Inode → Block
put_inode v ip w =
    let at = ip.inum % inodes_per_block * 16 in
    if leb at w && ltb w (at + 16) then inode_word ip (w - at) else v w

-- The inode in a block, as `ilock` reads it.
unfoldable pub get_inode : Block → ℕ → Inode
get_inode v inum =
    let at = inum % inodes_per_block * 16 in
    record {
      inum = inum;
      kind = v at % 2 ^ 16;
      major = v at / 2 ^ 16;
      minor = v (at + 1) % 2 ^ 16;
      nlink = v (at + 1) / 2 ^ 16;
      size = v (at + 2);
      addrs = λ i. v (at + 3 + i);
    }

unfoldable pub iupdate : Superblock → Inode → Store → Outcome Store
unfolding put_inode
iupdate sb ip s =
    write_block s (inode_block sb ip.inum) (put_inode (block s (inode_block sb ip.inum)) ip)

-- `for(i = 0; i < NDIRECT; i++)`, with `left` rounds to go.
unfoldable pub free_direct : Superblock → ℕ → ℕ → Inode → Store → Outcome (Inode × Store)
free_direct sb zero i ip s = ok (ip, s)
free_direct sb (suc left) i ip s =
    let kept = free_direct sb left (i + 1) ip s in
    let freed =
      bfree sb (ip.addrs i) s
      >>= free_direct sb left (i + 1) (record ip { addrs = update ip.addrs i 0 }) in
    if ip.addrs i == 0 then kept else freed

-- `for(j = 0; j < NINDIRECT; j++)` over the words of the indirect block.
unfoldable pub free_words : Superblock → ℕ → ℕ → Block → Store → Outcome Store
free_words sb zero j a s = ok s
free_words sb (suc left) j a s =
    let kept = free_words sb left (j + 1) a s in
    let freed = bfree sb (a j) s >>= free_words sb left (j + 1) a in
    if a j == 0 then kept else freed

-- The indirect block and the blocks that it names.
unfoldable pub free_indirect : Superblock → Inode → Store → Outcome (Inode × Store)
free_indirect sb ip s =
    let at = ip.addrs direct_count in
    if at == 0
    then ok (ip, s)
    else free_words sb indirect_count 0 (block s at) s >>= λ t.
        bfree sb at t >>= λ u. ok (record ip { addrs = update ip.addrs direct_count 0 }, u)

unfoldable pub itrunc : Superblock → Inode → Store → Outcome (Inode × Store)
unfolding free_direct free_indirect iupdate
itrunc sb ip s = do
  (ip1, s1) ← free_direct sb direct_count 0 ip s
  (ip2, s2) ← free_indirect sb ip1 s1
  s3 ← iupdate sb (record ip2 { size = 0 }) s2
  ok (record ip2 { size = 0 }, s3)
