-- ===== src/Fs/Inode/Lookup.antt =====
-- `bmap` over the indirect block, and as a whole.
use csklub_os.Base.{
  ℕ, ◌+◌, ◌-◌, ◌≤◌, ◌<◌, ◌≡◌, ◌≢◌, refl, sym, subst, ◌∙◌, ap, arith, true, ok, panic, ltb, lt→ltb,
  not_lt→ltb, eq→==, ne→==, ℕ_discrete, dec_lt,
}
use csklub_os.Fs.Store.{Superblock, Store, block, Room}
use csklub_os.Fs.Bitmap.{used}
use csklub_os.Fs.Inode.{Inode, direct_count, indirect_count, bmap}
use csklub_os.Fs.Inode.Word.{IsDisk, IsTaken, Fresh, Worded, less-Room, ensure_word-Worded}
use csklub_os.Fs.Inode.Map.{
  addr_of, addr_direct, addr_none, addr_indirect, Slotted, ensure_addr-Slotted, Mapped,
  direct-Mapped, indirect-kept, slot-IsTaken,
}

-- A block that is free after a block was taken was free before.
fresh-before :
    (k : ℕ) (sb : Superblock) (s : Store) (ip : Inode) (at : ℕ) (ip' : Inode) (t u : Store) (a : ℕ)
    → Slotted k sb s ip direct_count at ip' t
    → at ≢ 0
    → Fresh sb t u a
    → Fresh sb s u a
fresh-before k sb s ip at ip' t u a x nz f = record {
  small = f.small;
  free = elim (ℕ_discrete (ip.addrs direct_count) 0) [
    | no there ↦ ap (λ v. used sb v a) (sym (x.same there).1) ∙ f.free
    | yes z ↦ elim (ℕ_discrete a at) [
      | yes same ↦
          let one : used sb t a ≡ 1 = (x.fresh z nz).bits a f.small ∙ rw (eq→== a at same) refl in
          absurd (omega (arith, one, f.free))
      | no other ↦ sym ((x.fresh z nz).bits a f.small ∙ rw (ne→== a at other) refl) ∙ f.free
    ]
  ];
  in_use = f.in_use;
  zeros = f.zeros;
}

-- The two parts of `bmap` beyond the direct blocks: the indirect block, and its word.
words-Mapped :
    (j k : ℕ) (sb : Superblock) (s : Store) (ip : Inode) (bn at : ℕ) (ip' : Inode) (t : Store)
    (a : ℕ) (u : Store)
    → IsDisk sb s
    → (ip.addrs direct_count ≢ 0 → IsTaken sb s (ip.addrs direct_count))
    → ¬ (bn < direct_count)
    → Slotted j sb s ip direct_count at ip' t
    → at ≢ 0
    → Worded k sb t at (bn - direct_count) a u
    → Mapped sb s ip bn a ip' u
words-Mapped j k sb s ip bn at ip' t a u d used_at ge x nz w = record {
  found =
      addr_indirect ip' u bn ge nz'
      ∙ ap (λ v. block u v (bn - direct_count)) here
      ∙ w.words (bn - direct_count)
      ∙ rw (eq→== (bn - direct_count) (bn - direct_count) refl) refl;
  kept = λ c ne. after c ne ∙ indirect-kept j sb s ip at ip' t c d used_at x;
  same = λ there.
      let (p, q) = w.same (λ e. there (sym before ∙ e)) in
      (p ∙ before, q ∙ (x.same (λ z. there (addr_none ip s bn ge z))).1);
  fresh = λ z anz. fresh-before j sb s ip at ip' t u a x nz (w.fresh (before ∙ z) anz);
  full = w.full;
}
  where
    here : ip'.addrs direct_count ≡ at
    here = x.slots direct_count

    nz' : ip'.addrs direct_count ≢ 0
    nz' e = nz (sym here ∙ e)

    before : block t at (bn - direct_count) ≡ addr_of ip s bn
    before =
        ap (λ v. block t v (bn - direct_count)) (sym here)
        ∙ sym (addr_indirect ip' t bn ge nz')
        ∙ indirect-kept j sb s ip at ip' t bn d used_at x

    after : (c : ℕ) → c ≢ bn → addr_of ip' u c ≡ addr_of ip' t c
    after c ne = elim (dec_lt c direct_count) [
      | yes lt ↦ addr_direct ip' u c lt ∙ sym (addr_direct ip' t c lt)
      | no le ↦
          addr_indirect ip' u c le nz'
          ∙ ap (λ v. block u v (c - direct_count)) here
          ∙ w.words (c - direct_count)
          ∙ rw (ne→== (c - direct_count) (bn - direct_count) (λ e. ne (omega (arith, e, le, ge))))
              (ap (λ v. block t v (c - direct_count)) (sym here))
          ∙ sym (addr_indirect ip' t c le nz')
    ]

-- Without a free block for the indirect block, nothing changes.
full-Mapped :
    (k : ℕ) (sb : Superblock) (s : Store) (ip : Inode) (bn : ℕ) (ip' : Inode) (t : Store)
    → IsDisk sb s
    → (ip.addrs direct_count ≢ 0 → IsTaken sb s (ip.addrs direct_count))
    → ¬ (bn < direct_count)
    → Slotted k sb s ip direct_count 0 ip' t
    → Mapped sb s ip bn 0 ip' t
full-Mapped k sb s ip bn ip' t d u ge x = record {
  found = addr_none ip' t bn ge (x.slots direct_count);
  kept = λ c _. indirect-kept k sb s ip 0 ip' t c d u x;
  same = λ there. absurd (
      there (
        addr_none ip s bn ge
          (elim (ℕ_discrete (ip.addrs direct_count) 0) [ yes z ↦ z | no nz ↦ sym (x.same nz).0 ])));
  fresh = λ _ nz. absurd (nz refl);
  full = λ _.
      let (q, all) = x.full refl in
      subst (λ v. (c : ℕ) → c < sb.size → used sb v c ≢ 0) (sym q) all;
}

indirect-Mapped :
    (k : ℕ) (sb : Superblock) (s : Store) (ip : Inode) (bn : ℕ)
    → Room (k + 5) s
    → IsDisk sb s
    → (ip.addrs direct_count ≢ 0 → IsTaken sb s (ip.addrs direct_count))
    → ¬ (bn < direct_count)
    → bn < direct_count + indirect_count
    → (a : ℕ) × (ip' : Inode) × (t : Store) × (bmap sb ip bn s ≡ ok (a, ip', t))
      × Mapped sb s ip bn a ip' t
      × Room k t
unfolding bmap
indirect-Mapped k sb s ip bn r d u ge lt =
    let (at, ip', t, e, x) =
      ensure_addr-Slotted (k + 3) sb s ip direct_count
        (less-Room (k + 3 + 1 + 1) (k + 5) s (omega arith) r) d in
    let two : ltb (bn - direct_count) indirect_count ≡ true = lt→ltb _ _ (omega (arith, lt, ge)) in
    elim (ℕ_discrete at 0) [
      | yes z ↦ (
        0,
        ip',
        t,
        rw (bmap, not_lt→ltb bn direct_count ge, two, e, eq→== at 0 z) refl,
        full-Mapped (k + 3) sb s ip bn ip' t d u ge
            (subst (λ v. Slotted (k + 3) sb s ip direct_count v ip' t) z x),
        less-Room k (k + 3) t (omega arith) x.room,
      )
      | no nz ↦
          let (disk, in_use) = slot-IsTaken (k + 3) sb s ip at ip' t d u x nz in
          let (a, v, f, w) = ensure_word-Worded k sb t at (bn - direct_count) x.room disk in_use in
          (
            a,
            ip',
            v,
            rw (bmap, not_lt→ltb bn direct_count ge, two, e, ne→== at 0 nz, f) refl,
            words-Mapped (k + 3) k sb s ip bn at ip' t a v d u ge x nz w,
            w.room,
          )
    ]

-- On a disk whose map lies inside the disk and is in use, with block 0 in use too, and for an inode whose
-- indirect block, if it has one, is a block in use on the disk that is none of the map's, with room for five
-- more blocks in the log: `bmap` of a block number from MAXFILE on stops the machine. Otherwise it succeeds: the address that it returns is the file's for that block from
-- then on, every other block of the file keeps its address, an address that was there stays and
-- nothing changes, a new one is a block that was free, now in use and all zeros, and 0 is returned
-- only if no block is free.
pub bmap-Mapped :
    (k : ℕ) (sb : Superblock) (s : Store) (ip : Inode) (bn : ℕ)
    → Room (k + 5) s
    → IsDisk sb s
    → (ip.addrs direct_count ≢ 0 → IsTaken sb s (ip.addrs direct_count))
    → (direct_count + indirect_count ≤ bn → bmap sb ip bn s ≡ panic)
      × (bn < direct_count + indirect_count
          → (a : ℕ) × (ip' : Inode) × (t : Store) × (bmap sb ip bn s ≡ ok (a, ip', t))
            × Mapped sb s ip bn a ip' t
            × Room k t)
unfolding bmap
bmap-Mapped k sb s ip bn r d u = (
  λ le.
      rw
        (
          bmap,
          not_lt→ltb bn direct_count (λ h. absurd (omega (arith, le, h))),
          not_lt→ltb (bn - direct_count) indirect_count (λ h. absurd (omega (arith, le, h))),
        )
        refl,
  λ lt. elim (dec_lt bn direct_count) [
    | no ge ↦ indirect-Mapped k sb s ip bn r d u ge lt
    | yes direct ↦
        let (a, ip', t, e, x) =
          ensure_addr-Slotted (k + 3) sb s ip bn
            (less-Room (k + 3 + 1 + 1) (k + 5) s (omega arith) r) d in
        (
          a,
          ip',
          t,
          rw (bmap, lt→ltb bn direct_count direct) e,
          direct-Mapped (k + 3) sb s ip bn a ip' t d u direct x,
          less-Room k (k + 3) t (omega arith) x.room,
        )
  ],
)
