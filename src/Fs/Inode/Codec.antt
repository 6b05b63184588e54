-- ===== src/Fs/Inode/Codec.antt =====
-- The inode that `iupdate` writes is the one that `ilock` reads.
use csklub_os.Base.{
  ℕ, ◌+◌, ◌-◌, ◌*◌, ◌/◌, ◌%◌, ◌^◌, ◌≤◌, ◌<◌, ◌≡◌, ◌≢◌, refl, ap, arith, ok, ne→==, ℕ_discrete,
}
use csklub_os.Disk.{Block}
use csklub_os.Fs.Store.{Superblock, Store, block, Room, write_block-Wrote}
use csklub_os.Fs.Inode.{
  Inode, direct_count, inodes_per_block, inode_block, put_inode, get_inode, iupdate,
}

-- The same inode on the disk: it has 13 addresses.
pub record SameInode (x y : Inode) : Type 0 where
  pub kind : x.kind ≡ y.kind
  pub major : x.major ≡ y.major
  pub minor : x.minor ≡ y.minor
  pub nlink : x.nlink ≡ y.nlink
  pub size : x.size ≡ y.size
  pub addrs : (i : ℕ) → i ≤ direct_count → x.addrs i ≡ y.addrs i

get-put :
    (v : Block) (ip : Inode)
    → ip.kind < 2 ^ 16
    → ip.minor < 2 ^ 16
    → SameInode (get_inode (put_inode v ip) ip.inum) ip
unfolding get_inode put_inode
get-put v ip k m = record {
  kind = ground (arith, k);
  major = ground (arith, k);
  minor = ground (arith, m);
  nlink = ground (arith, m);
  size = ground arith;
  addrs = λ i le.
      let at : ℕ = ip.inum % inodes_per_block * 16 in
      let q : at + 3 + i - at - 3 ≡ i = omega arith in ground (arith, le, ap ip.addrs q);
}

-- The words of another inode are left alone.
get-put_other :
    (v : Block) (ip : Inode) (j : ℕ)
    → j % inodes_per_block ≢ ip.inum % inodes_per_block
    → SameInode (get_inode (put_inode v ip) j) (get_inode v j)
unfolding get_inode put_inode
get-put_other v ip j ne = record {
  kind = ap (λ w. w % 2 ^ 16) (word first (omega arith) (omega arith));
  major = ap (λ w. w / 2 ^ 16) (word first (omega arith) (omega arith));
  minor = ap (λ w. w % 2 ^ 16) (word (first + 1) (omega arith) (omega arith));
  nlink = ap (λ w. w / 2 ^ 16) (word (first + 1) (omega arith) (omega arith));
  size = word (first + 2) (omega arith) (omega arith);
  addrs = λ i le. word (first + 3 + i) (omega arith) (omega (arith, le));
}
  where
    first : ℕ
    first = j % inodes_per_block * 16

    word :
        (w : ℕ)
        → j % inodes_per_block * 16 ≤ w
        → w < j % inodes_per_block * 16 + 16
        → put_inode v ip w ≡ v w
    word w lo hi = ground (arith, ne, lo, hi)

-- `iupdate` with room for one more block in the log writes the inode so that it is read back, and
-- leaves every other inode of the disk and every other block alone. Type and minor number are 16-bit.
pub iupdate-get :
    (k : ℕ) (sb : Superblock) (s : Store) (ip : Inode)
    → Room (k + 1) s
    → ip.kind < 2 ^ 16
    → ip.minor < 2 ^ 16
    → (t : Store) × (iupdate sb ip s ≡ ok t)
      × SameInode (get_inode (block t (inode_block sb ip.inum)) ip.inum) ip
      × ((j : ℕ)
          → j ≢ ip.inum
          → SameInode
              (get_inode (block t (inode_block sb j)) j)
              (get_inode (block s (inode_block sb j)) j))
      × ((b : ℕ) → b ≢ inode_block sb ip.inum → block t b ≡ block s b)
unfolding iupdate
iupdate-get k sb s ip r kind minor =
    let at : ℕ = inode_block sb ip.inum in
    let (t, e, w) = write_block-Wrote k s at (put_inode (block s at) ip) r in
    (
      t,
      e,
      rw w.here (get-put (block s at) ip kind minor),
      λ j ne. elim (ℕ_discrete (inode_block sb j) at) [
        | yes same ↦
            rw (same, w.here) (get-put_other (block s at) ip j (λ q. ne (omega (arith, q, same))))
        | no other ↦
            rw (w.elsewhere (inode_block sb j) (ne→== (inode_block sb j) at other))
              (same_refl (get_inode (block s (inode_block sb j)) j))
      ],
      λ b ne. w.elsewhere b (ne→== b at ne),
    )
  where
    same_refl : (x : Inode) → SameInode x x
    same_refl x = record {
      kind = refl;
      major = refl;
      minor = refl;
      nlink = refl;
      size = refl;
      addrs = λ i _. refl;
    }
