-- ===== src/Fs/Table/Load.antt =====
-- `ilock` reads what `iupdate` wrote.
use csklub_os.Base.{
  ℕ, ◌+◌, ◌^◌, ◌<◌, ◌≡◌, ◌≢◌, refl, sym, ◌∙◌, subst, true, false, List, some, ok, ◌==◌, get_elem?,
  set, ne→==,
}
use csklub_os.Disk.{Block}
use csklub_os.Fs.Store.{Superblock, Store, block, Room}
use csklub_os.Fs.Inode.{Inode, get_inode, inode_block, iupdate}
use csklub_os.Fs.Inode.Codec.{SameInode, iupdate-get}
use csklub_os.Fs.Table.{Entry, is_held, acquire_inode, load, ilock}

-- The entry after `ilock`: locked by the process, with the inode in it.
pub record Loaded (me : ℕ) (ip : Inode) (e f : Entry) : Type 0 where
  pub node : SameInode f.node ip
  pub inum : f.node.inum ≡ ip.inum
  pub valid : f.valid ≡ true
  pub locked : f.locked ≡ true
  pub pid : f.pid ≡ me
  pub ref : f.ref ≡ e.ref

get_inode-inum : (v : Block) (j : ℕ) → (get_inode v j).inum ≡ j
unfolding get_inode
get_inode-inum v j = refl

-- An inode that `iupdate` wrote, with room for one more block in the log, is what `ilock` reads into
-- an entry in use for its number that is not locked and not yet read. The inode has a type; its type and
-- minor number are 16-bit.
pub ilock-iupdate :
    (k : ℕ) (sb : Superblock) (s : Store) (ip : Inode) (me i : ℕ) (es : List Entry) (e : Entry)
    → Room (k + 1) s
    → ip.kind < 2 ^ 16
    → ip.minor < 2 ^ 16
    → ip.kind ≢ 0
    → get_elem? es i ≡ some e
    → is_held e ≡ true
    → e.locked ≡ false
    → e.valid ≡ false
    → e.node.inum ≡ ip.inum
    → (t : Store) × (f : Entry) × (iupdate sb ip s ≡ ok t)
      × (ilock sb t me i es ≡ ok (some (set es i f)))
      × Loaded me ip e f
unfolding ilock acquire_inode load
ilock-iupdate k sb s ip me i es e room kind minor typed found used free absent number =
    let (t, q, same, others, rest) = iupdate-get k sb s ip room kind minor in
    let n = get_inode (block t (inode_block sb e.node.inum)) e.node.inum in
    let read : SameInode n ip =
      subst (λ j. SameInode (get_inode (block t (inode_block sb j)) j) ip) (sym number) same in
    let has_type : (n.kind == 0) ≡ false = ne→== n.kind 0 (λ z. typed (sym read.kind ∙ z)) in
    (
      t,
      record e { locked = true; pid = me; node = n; valid = true },
      q,
      rw (ilock, found, used, acquire_inode, free, load, absent, has_type) refl,
      record {
        node = read;
        inum = get_inode-inum (block t (inode_block sb e.node.inum)) e.node.inum ∙ number;
        valid = refl;
        locked = refl;
        pid = refl;
        ref = refl;
      },
    )
