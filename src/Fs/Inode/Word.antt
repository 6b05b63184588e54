-- ===== src/Fs/Inode/Word.antt =====
-- The indirect block's part of `bmap`.
use csklub_os.Base.{
  ℕ, ◌+◌, ◌%◌, ◌≤◌, ◌<◌, ◌≡◌, ◌≢◌, refl, sym, subst, ◌∙◌, ap, arith, false, ok, ◌==◌, eq→==, ne→==,
  if◌then◌else◌, ℕ_discrete,
}
use csklub_os.Disk.{Block, update}
use csklub_os.Fs.Store.{Superblock, Store, block, Room, write_block-Wrote}
use csklub_os.Fs.Bitmap.{bits_per_block, map_block, block_bit, balloc, used, MapUsed}
use csklub_os.Fs.Bitmap.Alloc.{Taken, Allocated, taken, none_free, balloc-Allocated}
use csklub_os.Fs.Inode.{ensure_word}

-- The disk's own blocks: the map lies on the disk and is in use, and so is block 0.
pub record IsDisk (sb : Superblock) (s : Store) : Type 0 where
  pub inside : (c : ℕ) → c < sb.size → map_block sb c < sb.size
  pub map_used : MapUsed sb s
  pub boot : used sb s 0 ≢ 0

-- A block in use that is none of the map's.
pub record IsTaken (sb : Superblock) (s : Store) (at : ℕ) : Type 0 where
  pub small : at < sb.size
  pub in_use : used sb s at ≢ 0
  pub apart : (c : ℕ) → c < sb.size → at ≢ map_block sb c

-- A block that was free, and is in use and all zeros.
pub record Fresh (sb : Superblock) (s t : Store) (n : ℕ) : Type 0 where
  pub small : n < sb.size
  pub free : used sb s n ≡ 0
  pub in_use : used sb t n ≢ 0
  pub zeros : (w : ℕ) → block t n w ≡ 0

module _ (sb : Superblock) (s : Store) (n : ℕ) (t : Store) (d : IsDisk sb s)
    (x : Taken sb s 0 n t) where
  pub taken-nonzero : n ≢ 0
  taken-nonzero e = d.boot (ap (used sb s) (sym e) ∙ x.free)

  pub taken-used : (c : ℕ) → c < sb.size → used sb s c ≢ 0 → used sb t c ≢ 0
  taken-used c lt ne z = ne (elim (ℕ_discrete c n) [
    | yes same ↦ ap (used sb s) same ∙ x.free
    | no other ↦ sym (x.bits c lt ∙ rw (ne→== c n other) refl) ∙ z
  ])

  pub taken-here : used sb t n ≢ 0
  taken-here z =
      let one : used sb t n ≡ 1 = x.bits n x.inside.1 ∙ rw (eq→== n n refl) refl in
      absurd (omega (arith, one, z))

  pub taken-Fresh : Fresh sb s t n
  taken-Fresh = record { small = x.inside.1; free = x.free; in_use = taken-here; zeros = x.zeros }

  pub taken-IsDisk : IsDisk sb t
  taken-IsDisk = record {
    inside = d.inside;
    map_used = λ c lt. taken-used (map_block sb c) (d.inside c lt) (d.map_used c lt);
    boot = taken-used 0 (omega (arith, x.inside)) d.boot;
  }

  -- A block in use keeps its contents.
  pub taken-block : (at : ℕ) → IsTaken sb s at → block t at ≡ block s at
  taken-block at a = x.others at (λ e. a.in_use (ap (used sb s) e ∙ x.free)) (a.apart n x.inside.1)

  pub IsTaken-IsTaken : (at : ℕ) → IsTaken sb s at → IsTaken sb t at
  IsTaken-IsTaken at a = record {
    small = a.small;
    in_use = taken-used at a.small a.in_use;
    apart = a.apart;
  }

  -- The new block is none of the map's.
  pub IsTaken-new : IsTaken sb t n
  IsTaken-new = record {
    small = x.inside.1;
    in_use = taken-here;
    apart = λ c lt e. d.map_used c lt (ap (used sb s) (sym e) ∙ x.free);
  }

-- What `ensure_word` does with word `bn` of block `at`.
pub record Worded (k : ℕ) (sb : Superblock) (s : Store) (at bn a : ℕ) (t : Store) : Type 0 where
  pub words : (w : ℕ) → block t at w ≡ (if w == bn then a else block s at w)
  pub same : block s at bn ≢ 0 → (a ≡ block s at bn) × (t ≡ s)
  pub fresh : block s at bn ≡ 0 → a ≢ 0 → Fresh sb s t a
  pub full : a ≡ 0 → (c : ℕ) → c < sb.size → used sb t c ≢ 0
  pub room : Room k t

-- The log has room for less, too.
pub less-Room : (k j : ℕ) (s : Store) → k ≤ j → Room j s → Room k s
less-Room k j s le r = record {
  fits = omega (arith, le, r.fits);
  area = omega (arith, le, r.area);
  small = r.small;
  busy = r.busy;
  few = r.few;
}

kept-word :
    (s : Store) (at bn w : ℕ) → block s at w ≡ (if w == bn then block s at bn else block s at w)
kept-word s at bn w = elim (ℕ_discrete w bn) [
  | yes same ↦ rw (same, eq→== bn bn refl) refl
  | no other ↦ rw (ne→== w bn other) refl
]

-- A block that is none of the map's may change without a change of bits.
pub kept-used :
    (sb : Superblock) (s t : Store) (at c : ℕ)
    → IsTaken sb s at
    → ((b : ℕ) → (b == at) ≡ false → block t b ≡ block s b)
    → c < sb.size
    → used sb t c ≡ used sb s c
kept-used sb s t at c a same lt =
    ap (λ (v : Block). block_bit v (c % bits_per_block))
      (same (map_block sb c) (ne→== (map_block sb c) at (λ e. a.apart c lt (sym e))))

missing-Worded :
    (k : ℕ) (sb : Superblock) (s : Store) (at bn n : ℕ) (t : Store)
    → IsDisk sb s
    → IsTaken sb s at
    → block s at bn ≡ 0
    → Room k s
    → balloc sb s ≡ ok (n, t)
    → Allocated (k + 1) sb s 0 n t
    → (a : ℕ) × (u : Store) × (ensure_word sb at bn s ≡ ok (a, u)) × Worded k sb s at bn a u
unfolding ensure_word
missing-Worded k sb s at bn n t d a z room e (none_free all) = (
  0,
  s,
  rw (ensure_word, eq→== (block s at bn) 0 z, e) refl,
  record {
    words = λ w.
        subst (λ v. block s at w ≡ (if w == bn then v else block s at w)) z (kept-word s at bn w);
    same = λ ne. absurd (ne z);
    fresh = λ _ ne. absurd (ne refl);
    full = λ _ c lt. all c (omega arith) lt;
    room = room;
  },
)
missing-Worded k sb s at bn n t d a z room e (taken _ _ x r) =
    let new : IsTaken sb t at = IsTaken-IsTaken sb s n t d x at a in
    let (u, f, w) = write_block-Wrote k t at (update (block t at) bn n) r in
    let nonzero = taken-nonzero sb s n t d x in
    let old = taken-block sb s n t d x at a in
    let other : (n == at) ≡ false = ne→== n at (λ q. a.in_use (ap (used sb s) (sym q) ∙ x.free)) in
    (
      n,
      u,
      rw (ensure_word, eq→== (block s at bn) 0 z, e, ne→== n 0 nonzero, f) refl,
      record {
        words = λ i.
            ap (λ (v : Block). v i) w.here ∙ ap (λ (v : Block). if i == bn then n else v i) old;
        same = λ ne. absurd (ne z);
        fresh = λ _ _. record {
          small = x.inside.1;
          free = x.free;
          in_use = λ q.
              taken-here sb s n t d x (sym (kept-used sb t u at n new w.elsewhere x.inside.1) ∙ q);
          zeros = λ i. ap (λ (v : Block). v i) (w.elsewhere n other) ∙ x.zeros i;
        };
        full = λ q. absurd (nonzero q);
        room = w.room;
      },
    )

-- Word `bn` of a block in use names a block afterwards, a fresh one if it was 0; it stays 0 only
-- if no block is free.
pub ensure_word-Worded :
    (k : ℕ) (sb : Superblock) (s : Store) (at bn : ℕ)
    → Room (k + 3) s
    → IsDisk sb s
    → IsTaken sb s at
    → (a : ℕ) × (t : Store) × (ensure_word sb at bn s ≡ ok (a, t)) × Worded k sb s at bn a t
unfolding ensure_word
ensure_word-Worded k sb s at bn r d u = elim (ℕ_discrete (block s at bn) 0) [
  | no there ↦ (
    block s at bn,
    s,
    rw (ensure_word, ne→== (block s at bn) 0 there) refl,
    record {
      words = λ w. kept-word s at bn w;
      same = λ _. (refl, refl);
      fresh = λ e. absurd (there e);
      full = λ e. absurd (there e);
      room = less-Room k (k + 3) s (omega arith) r;
    },
  )
  | yes missing ↦
      let (n, t, e, q) =
        balloc-Allocated (k + 1) sb s (less-Room (k + 1 + 1 + 1) (k + 3) s (omega arith) r)
          d.map_used in
      missing-Worded k sb s at bn n t d u missing (less-Room k (k + 3) s (omega arith) r) e q
]
