-- ===== src/Fs/Inode/Map.antt =====
-- `bmap` as a map from the blocks of a file to blocks of the disk.
use csklub_os.Base.{
  ℕ, ◌+◌, ◌-◌, ◌<◌, ◌≡◌, ◌≢◌, refl, sym, subst, ◌∙◌, ap, arith, ok, ltb, lt→ltb, not_lt→ltb, ◌==◌,
  eq→==, ne→==, if◌then◌else◌, ℕ_discrete, dec_lt,
}
use csklub_os.Disk.{Block, update}
use csklub_os.Fs.Store.{Superblock, Store, block, Room}
use csklub_os.Fs.Bitmap.{balloc, used}
use csklub_os.Fs.Bitmap.Alloc.{Taken, Allocated, taken, none_free, balloc-Allocated}
use csklub_os.Fs.Inode.{Inode, direct_count, ensure_addr}
use csklub_os.Fs.Inode.Word.{
  IsDisk, IsTaken, Fresh, less-Room, taken-nonzero, taken-IsDisk, taken-Fresh, taken-block,
  IsTaken-new,
}

-- The disk block of block `bn` of the file, 0 if it has none.
abbrev pub addr_of : Inode → Store → ℕ → ℕ
addr_of ip s bn =
    if ltb bn direct_count
    then ip.addrs bn
    else if ip.addrs direct_count == 0
    then 0
    else block s (ip.addrs direct_count) (bn - direct_count)

pub addr_direct : (ip : Inode) (s : Store) (c : ℕ) → c < direct_count → addr_of ip s c ≡ ip.addrs c
addr_direct ip s c lt = rw (addr_of, lt→ltb c direct_count lt) refl

pub addr_none :
    (ip : Inode) (s : Store) (c : ℕ)
    → ¬ (c < direct_count)
    → ip.addrs direct_count ≡ 0
    → addr_of ip s c ≡ 0
addr_none ip s c ge z =
    rw (addr_of, not_lt→ltb c direct_count ge, eq→== (ip.addrs direct_count) 0 z) refl

pub addr_indirect :
    (ip : Inode) (s : Store) (c : ℕ)
    → ¬ (c < direct_count)
    → ip.addrs direct_count ≢ 0
    → addr_of ip s c ≡ block s (ip.addrs direct_count) (c - direct_count)
addr_indirect ip s c ge nz =
    rw (addr_of, not_lt→ltb c direct_count ge, ne→== (ip.addrs direct_count) 0 nz) refl

-- What `ensure_addr` does with address `i`.
pub record Slotted (k : ℕ) (sb : Superblock) (s : Store) (ip : Inode) (i a : ℕ) (ip' : Inode)
    (t : Store) : Type 0 where
  pub slots : (j : ℕ) → ip'.addrs j ≡ (if j == i then a else ip.addrs j)
  pub same : ip.addrs i ≢ 0 → (a ≡ ip.addrs i) × (t ≡ s)
  pub fresh : ip.addrs i ≡ 0 → a ≢ 0 → Taken sb s 0 a t
  pub full : a ≡ 0 → (t ≡ s) × ((c : ℕ) → c < sb.size → used sb s c ≢ 0)
  pub room : Room k t

kept-slot : (ip : Inode) (i j : ℕ) → ip.addrs j ≡ (if j == i then ip.addrs i else ip.addrs j)
kept-slot ip i j = elim (ℕ_discrete j i) [
  | yes same ↦ rw (same, eq→== i i refl) refl
  | no other ↦ rw (ne→== j i other) refl
]

missing-Slotted :
    (k : ℕ) (sb : Superblock) (s : Store) (ip : Inode) (i n : ℕ) (t : Store)
    → IsDisk sb s
    → ip.addrs i ≡ 0
    → balloc sb s ≡ ok (n, t)
    → Room k s
    → Allocated k sb s 0 n t
    → (a : ℕ) × (ip' : Inode) × (u : Store) × (ensure_addr sb ip i s ≡ ok (a, ip', u))
      × Slotted k sb s ip i a ip' u
unfolding ensure_addr
missing-Slotted k sb s ip i n t d z e room (none_free all) = (
  0,
  ip,
  s,
  rw (ensure_addr, eq→== (ip.addrs i) 0 z, e) refl,
  record {
    slots = λ j. subst (λ v. ip.addrs j ≡ (if j == i then v else ip.addrs j)) z (kept-slot ip i j);
    same = λ ne. absurd (ne z);
    fresh = λ _ ne. absurd (ne refl);
    full = λ _. (refl, λ c lt. all c (omega arith) lt);
    room = room;
  },
)
missing-Slotted k sb s ip i n t d z e room (taken _ _ x r) =
    let nonzero = taken-nonzero sb s n t d x in
    (
      n,
      record ip { addrs = update ip.addrs i n },
      t,
      rw (ensure_addr, eq→== (ip.addrs i) 0 z, e, ne→== n 0 nonzero) refl,
      record {
        slots = λ j. refl;
        same = λ ne. absurd (ne z);
        fresh = λ _ _. x;
        full = λ q. absurd (nonzero q);
        room = r;
      },
    )

pub ensure_addr-Slotted :
    (k : ℕ) (sb : Superblock) (s : Store) (ip : Inode) (i : ℕ)
    → Room (k + 1 + 1) s
    → IsDisk sb s
    → (a : ℕ) × (ip' : Inode) × (u : Store) × (ensure_addr sb ip i s ≡ ok (a, ip', u))
      × Slotted k sb s ip i a ip' u
unfolding ensure_addr
ensure_addr-Slotted k sb s ip i r d = elim (ℕ_discrete (ip.addrs i) 0) [
  | no there ↦ (
    ip.addrs i,
    ip,
    s,
    rw (ensure_addr, ne→== (ip.addrs i) 0 there) refl,
    record {
      slots = λ j. kept-slot ip i j;
      same = λ _. (refl, refl);
      fresh = λ e. absurd (there e);
      full = λ e. absurd (there e);
      room = less-Room k (k + 1 + 1) s (omega arith) r;
    },
  )
  | yes missing ↦
      let (n, t, e, q) = balloc-Allocated k sb s r d.map_used in
      missing-Slotted k sb s ip i n t d missing e (less-Room k (k + 1 + 1) s (omega arith) r) q
]

-- The file's map with block `bn`, and what else is kept.
pub record Mapped (sb : Superblock) (s : Store) (ip : Inode) (bn a : ℕ) (ip' : Inode) (t : Store)
    : Type 0 where
  pub found : addr_of ip' t bn ≡ a
  pub kept : (c : ℕ) → c ≢ bn → addr_of ip' t c ≡ addr_of ip s c
  pub same : addr_of ip s bn ≢ 0 → (a ≡ addr_of ip s bn) × (t ≡ s)
  pub fresh : addr_of ip s bn ≡ 0 → a ≢ 0 → Fresh sb s t a
  pub full : a ≡ 0 → (c : ℕ) → c < sb.size → used sb t c ≢ 0

-- A block in use keeps its contents.
slot-block :
    (k : ℕ) (sb : Superblock) (s : Store) (ip : Inode) (i a : ℕ) (ip' : Inode) (t : Store) (at : ℕ)
    → IsDisk sb s
    → Slotted k sb s ip i a ip' t
    → IsTaken sb s at
    → block t at ≡ block s at
slot-block k sb s ip i a ip' t at d x u = elim (ℕ_discrete (ip.addrs i) 0) [
  | no there ↦ ap (λ v. block v at) (x.same there).1
  | yes z ↦ elim (ℕ_discrete a 0) [
    | yes none_left ↦ ap (λ v. block v at) (x.full none_left).0
    | no nz ↦ taken-block sb s a t d (x.fresh z nz) at u
  ]
]

addr-agree :
    (ip ip' : Inode) (s t : Store) (c : ℕ)
    → (c < direct_count → ip'.addrs c ≡ ip.addrs c)
    → ip'.addrs direct_count ≡ ip.addrs direct_count
    → (ip.addrs direct_count ≢ 0
        → block t (ip.addrs direct_count) (c - direct_count)
          ≡ block s (ip.addrs direct_count) (c - direct_count))
    → addr_of ip' t c ≡ addr_of ip s c
addr-agree ip ip' s t c direct same word = elim (dec_lt c direct_count) [
  | yes lt ↦ addr_direct ip' t c lt ∙ direct lt ∙ sym (addr_direct ip s c lt)
  | no ge ↦ elim (ℕ_discrete (ip.addrs direct_count) 0) [
    | yes z ↦ addr_none ip' t c ge (same ∙ z) ∙ sym (addr_none ip s c ge z)
    | no nz ↦
        addr_indirect ip' t c ge (λ e. nz (sym same ∙ e))
        ∙ ap (λ v. block t v (c - direct_count)) same
        ∙ word nz
        ∙ sym (addr_indirect ip s c ge nz)
  ]
]

pub direct-Mapped :
    (k : ℕ) (sb : Superblock) (s : Store) (ip : Inode) (bn a : ℕ) (ip' : Inode) (t : Store)
    → IsDisk sb s
    → (ip.addrs direct_count ≢ 0 → IsTaken sb s (ip.addrs direct_count))
    → bn < direct_count
    → Slotted k sb s ip bn a ip' t
    → Mapped sb s ip bn a ip' t
direct-Mapped k sb s ip bn a ip' t d u lt x = record {
  found = addr_direct ip' t bn lt ∙ x.slots bn ∙ rw (eq→== bn bn refl) refl;
  kept = λ c ne.
      addr-agree ip ip' s t c (λ _. x.slots c ∙ rw (ne→== c bn ne) refl)
        (x.slots direct_count ∙ rw (ne→== direct_count bn (λ e. omega (arith, e, lt))) refl)
        (λ nz.
          ap (λ (v : Block). v (c - direct_count))
            (slot-block k sb s ip bn a ip' t (ip.addrs direct_count) d x (u nz)));
  same = λ nz.
      let (p, q) = x.same (λ e. nz (addr_direct ip s bn lt ∙ e)) in
      (p ∙ sym (addr_direct ip s bn lt), q);
  fresh = λ z nz. taken-Fresh sb s a t d (x.fresh (sym (addr_direct ip s bn lt) ∙ z) nz);
  full = λ z.
      let (q, all) = x.full z in subst (λ v. (c : ℕ) → c < sb.size → used sb v c ≢ 0) (sym q) all;
}

-- The map has a new indirect block, of zeros, or the one that it had.
pub indirect-kept :
    (k : ℕ) (sb : Superblock) (s : Store) (ip : Inode) (at : ℕ) (ip' : Inode) (t : Store) (c : ℕ)
    → IsDisk sb s
    → (ip.addrs direct_count ≢ 0 → IsTaken sb s (ip.addrs direct_count))
    → Slotted k sb s ip direct_count at ip' t
    → addr_of ip' t c ≡ addr_of ip s c
indirect-kept k sb s ip at ip' t c d u x = elim (ℕ_discrete (ip.addrs direct_count) 0) [
  | no there ↦ addr-agree ip ip' s t c low (here ∙ (x.same there).0) (λ nz.
      ap (λ (v : Block). v (c - direct_count))
        (slot-block k sb s ip direct_count at ip' t (ip.addrs direct_count) d x (u nz)))
  | yes z ↦ elim (dec_lt c direct_count) [
    | yes lt ↦ addr_direct ip' t c lt ∙ low lt ∙ sym (addr_direct ip s c lt)
    | no ge ↦ elim (ℕ_discrete at 0) [
      | yes none_left ↦ addr_none ip' t c ge (here ∙ none_left) ∙ sym (addr_none ip s c ge z)
      | no nz ↦
          addr_indirect ip' t c ge (λ e. nz (sym here ∙ e))
          ∙ ap (λ v. block t v (c - direct_count)) here
          ∙ (x.fresh z nz).zeros (c - direct_count)
          ∙ sym (addr_none ip s c ge z)
    ]
  ]
]
  where
    here : ip'.addrs direct_count ≡ at
    here = x.slots direct_count

    low : c < direct_count → ip'.addrs c ≡ ip.addrs c
    low lt = x.slots c ∙ rw (ne→== c direct_count (λ e. omega (arith, e, lt))) refl

-- The indirect block of the new map is in use.
pub slot-IsTaken :
    (k : ℕ) (sb : Superblock) (s : Store) (ip : Inode) (at : ℕ) (ip' : Inode) (t : Store)
    → IsDisk sb s
    → (ip.addrs direct_count ≢ 0 → IsTaken sb s (ip.addrs direct_count))
    → Slotted k sb s ip direct_count at ip' t
    → at ≢ 0
    → IsDisk sb t × IsTaken sb t at
slot-IsTaken k sb s ip at ip' t d u x nz = elim (ℕ_discrete (ip.addrs direct_count) 0) [
  | no there ↦
      let (p, q) = x.same there in
      subst (λ v. IsDisk sb v × IsTaken sb v at) (sym q) (d, subst (IsTaken sb s) (sym p) (u there))
  | yes z ↦ (taken-IsDisk sb s at t d (x.fresh z nz), IsTaken-new sb s at t d (x.fresh z nz))
]
