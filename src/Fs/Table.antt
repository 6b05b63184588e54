-- ===== src/Fs/Table.antt =====
-- kernel/fs.c: the table of inodes in memory, `itable`, and `ialloc`. A pointer to an inode is its index
-- in the table; one that points to none, like the null pointer, stops the machine. `itable.lock` makes a
-- call one step. `iput` gives it up while it frees an inode, so it is three functions.
pub mod Scan
pub mod Keep
pub mod Locked
pub mod Unique
pub mod Born
pub mod Load
mod Tests
use csklub_os.Base.{
  ℕ, zero, suc, ◌+◌, ◌-◌, ◌%◌, ◌^◌, Bool, true, false, ◌&&◌, ◌||◌, not, List, [], ◌∷◌, Option, none,
  some, Outcome, ok, panic, ◌>>=◌, ltb, ◌==◌, if◌then◌else◌, get_elem?, set, modify,
}
use csklub_os.Fs.Store.{Superblock, Store, block, write_block}
use csklub_os.Fs.Inode.{Inode, put_inode, get_inode, inode_block, iupdate, itrunc}

-- The fields that the table adds to an inode, with its sleep lock.
pub record Entry : Type 0 where
  pub dev : ℕ
  pub ref : ℕ
  pub valid : Bool
  pub locked : Bool
  pub pid : ℕ
  pub node : Inode

-- `ip->ref > 0`: a 32-bit `int`.
abbrev pub is_held : Entry → Bool
is_held e = ltb 0 e.ref && ltb e.ref (2 ^ 31)

abbrev pub is_inode : ℕ → ℕ → Entry → Bool
is_inode dev inum e = is_held e && e.dev == dev && e.node.inum == inum

-- How the loop of `iget` ends: with the inode, or behind the table with `empty`.
pub data Seen : Type 0 where
  held : ℕ → Seen
  missing : Option ℕ → Seen

-- Remember empty slot.
abbrev pub remember : ℕ → Entry → Option ℕ → Option ℕ
remember i e empty = elim empty [ some j ↦ some j | none ↦ if e.ref == 0 then some i else none ]

-- The loop, from index `i` on.
unfoldable pub scan : ℕ → ℕ → ℕ → Option ℕ → List Entry → Seen
scan dev inum i empty [] = missing empty
scan dev inum i empty (e ∷ es) =
    let rest = scan dev inum (i + 1) (remember i e empty) es in
    if is_inode dev inum e then held i else rest

abbrev pub more : Entry → Entry
more e = record e { ref = (e.ref + 1) % 2 ^ 32 }

abbrev pub fewer : Entry → Entry
fewer e = record e { ref = (e.ref + 2 ^ 32 - 1) % 2 ^ 32 }

-- Recycle an inode entry.
abbrev pub renewed : ℕ → ℕ → Entry → Entry
renewed d n e = record e { dev = d; node = record e.node { inum = n }; ref = 1; valid = false }

unfoldable pub iget : ℕ → ℕ → List Entry → Outcome (ℕ × List Entry)
iget dev inum es = elim (scan dev inum 0 none es) [
  | held i ↦ ok (i, modify more i es)
  | missing empty ↦ elim empty [ none ↦ panic | some i ↦ ok (i, modify (renewed dev inum) i es) ]
]

abbrev pub idup : ℕ → List Entry → List Entry
idup i es = modify more i es

-- `acquiresleep`, `none` where the process sleeps, to try again.
unfoldable pub acquire_inode : ℕ → Entry → Option Entry
acquire_inode me e = if e.locked then none else some (record e { locked = true; pid = me })

abbrev pub release_inode : Entry → Entry
release_inode e = record e { locked = false; pid = 0 }

-- `ilock` with the lock held.
unfoldable pub load : Superblock → Store → Entry → Outcome Entry
load sb s e =
    let n = get_inode (block s (inode_block sb e.node.inum)) e.node.inum in
    if e.valid
    then ok e
    else if n.kind == 0
    then panic
    else ok (record e { node = n; valid = true })

-- `none` where the process sleeps.
unfoldable pub ilock : Superblock → Store → ℕ → ℕ → List Entry → Outcome (Option (List Entry))
ilock sb s me i es = elim (get_elem? es i) [
  | none ↦ panic
  | some e ↦ if not (is_held e) then panic else elim (acquire_inode me e) [
    | none ↦ ok none
    | some c ↦ load sb s c >>= (λ f. ok (some (set es i f)))
  ]
]

unfoldable pub iunlock : ℕ → ℕ → List Entry → Outcome (List Entry)
iunlock me i es = elim (get_elem? es i) [
  | none ↦ panic
  | some e ↦
      if not (e.locked && e.pid == me) || not (is_held e)
      then panic
      else ok (set es i (release_inode e))
]

-- What `iput` comes to before it gives `itable.lock` up.
pub data Putting : Type 0 where
  sleeps : Putting
  frees : List Entry → Putting
  dropped : List Entry → Putting

-- The inode has no links and no other references.
abbrev pub is_last : Entry → Bool
is_last e = e.ref == 1 && e.valid && e.node.nlink == 0

unfoldable pub iput_begin : ℕ → ℕ → List Entry → Outcome Putting
iput_begin me i es = elim (get_elem? es i) [
  | none ↦ panic
  | some e ↦
      if is_last e
      then elim (acquire_inode me e) [ none ↦ ok sleeps | some c ↦ ok (frees (set es i c)) ]
      else ok (dropped (set es i (fewer e)))
]

-- Truncate and free.
unfoldable pub iput_free : Superblock → ℕ → List Entry → Store → Outcome (List Entry × Store)
iput_free sb i es s = elim (get_elem? es i) [
  | none ↦ panic
  | some e ↦ itrunc sb e.node s >>= (λ r.
      let n = record r.0 { kind = 0 } in
      iupdate sb n r.1
      >>= (λ t. ok (set es i (release_inode (record e { node = n; valid = false })), t)))
]

unfoldable pub iput_end : ℕ → List Entry → List Entry
iput_end i es = modify fewer i es

unfoldable pub iunlockput : ℕ → ℕ → List Entry → Outcome Putting
unfolding iunlock iput_begin
iunlockput me i es = iunlock me i es >>= iput_begin me i

-- The inode that `ialloc` writes to the disk.
abbrev pub blank : ℕ → ℕ → Inode
blank inum kind = record {
  inum = inum;
  kind = kind;
  major = 0;
  minor = 0;
  nlink = 0;
  size = 0;
  addrs = λ i. 0;
}

-- The loop of `ialloc`, with `left` inodes to go; `none` if no inode is free.
unfoldable pub ialloc_loop : Superblock → ℕ → ℕ → ℕ → Store → Outcome (Option ℕ × Store)
ialloc_loop sb kind zero inum s = ok (none, s)
ialloc_loop sb kind (suc left) inum s =
    let rest = ialloc_loop sb kind left (inum + 1) s in
    let v = block s (inode_block sb inum) in
    let n = get_inode v inum in
    let taken = write_block s (inode_block sb inum) (put_inode v (blank inum kind)) in
    if n.kind == 0 then (taken >>= (λ t. ok (some inum, t))) else rest

-- `ialloc` up to `iget`.
unfoldable pub ialloc_number : Superblock → ℕ → Store → Outcome (Option ℕ × Store)
ialloc_number sb kind s = ialloc_loop sb kind (sb.ninodes - 1) 1 s

unfoldable pub ialloc :
    Superblock → ℕ → ℕ → List Entry → Store → Outcome (Option ℕ × List Entry × Store)
unfolding ialloc_number
ialloc sb dev kind es s = ialloc_number sb kind s >>= (λ r. elim r.0 [
  | none ↦ ok (none, es, r.1)
  | some inum ↦ iget dev inum es >>= (λ g. ok (some g.0, g.1, r.1))
])
