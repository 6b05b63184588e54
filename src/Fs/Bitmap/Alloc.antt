-- ===== src/Fs/Bitmap/Alloc.antt =====
-- What `balloc` returns, and what it leaves alone.
use csklub_os.Base.{
  ℕ, zero, suc, ◌+◌, ◌-◌, ◌*◌, ◌/◌, ◌%◌, ◌≤◌, ◌<◌, ◌≡◌, ◌≢◌, refl, sym, subst, ◌∙◌, ap, arith,
  Option, none, some, Outcome, ok, min, ◌==◌, eq→==, ne→==, if◌then◌else◌, ℕ_discrete, dec_lt,
}
use csklub_os.Disk.{Block}
use csklub_os.Fs.Store.{Superblock, Store, block, Room, Wrote, write_block-Wrote}
use csklub_os.Fs.Bitmap.{
  bits_per_block, map_block, block_bit, mark, bzero, find_bit, take_block, balloc_loop, balloc,
  used, MapUsed,
}
use csklub_os.Fs.Bitmap.Find.{Found, full, first, find_bit-Found, block_bit-mark}

-- Of the blocks from `b` on, `n` is the first free one, and is now in use and all zeros; else the
-- blocks keep their bits, and those outside the map their contents.
pub record Taken (sb : Superblock) (s : Store) (b n : ℕ) (t : Store) : Type 0 where
  pub inside : (b ≤ n) × (n < sb.size)
  pub free : used sb s n ≡ 0
  pub lowest : (c : ℕ) → b ≤ c → c < n → used sb s c ≢ 0
  pub bits : (c : ℕ) → c < sb.size → used sb t c ≡ (if c == n then 1 else used sb s c)
  pub zeros : (w : ℕ) → block t n w ≡ 0
  pub others : (c : ℕ) → c ≢ n → c ≢ map_block sb n → block t c ≡ block s c

-- How `balloc` ends: with a block, or with 0 where all blocks are in use.
pub data Allocated (k : ℕ) (sb : Superblock) (s : Store) (b : ℕ) : ℕ → Store → Type 0 where
  taken : (n : ℕ) (t : Store) → Taken sb s b n t → Room k t → Allocated k sb s b n t
  none_free : ((c : ℕ) → b ≤ c → c < sb.size → used sb s c ≢ 0) → Allocated k sb s b 0 s

-- A map block that is in use is not the free block.
map-ne :
    (sb : Superblock) (s : Store) (n c : ℕ)
    → MapUsed sb s
    → used sb s n ≡ 0
    → c < sb.size
    → map_block sb c ≢ n
map-ne sb s n c m free lt e = m c lt (ap (used sb s) e ∙ free)

-- A write of a map block with one bit changed.
pub marked-used :
    (k : ℕ) (sb : Superblock) (s t : Store) (n x : ℕ)
    → x < 2
    → Wrote k s (map_block sb n) (mark (block s (map_block sb n)) (n % bits_per_block) x) t
    → (c : ℕ) → used sb t c ≡ (if c == n then x else used sb s c)
marked-used k sb s t n x small w c = elim (ℕ_discrete (map_block sb c) (map_block sb n)) [
  | yes same ↦ rw same (
      ap (λ (v : Block). block_bit v (c % bits_per_block)) w.here
      ∙ block_bit-mark (block s (map_block sb n)) (n % bits_per_block) x (c % bits_per_block) small
      ∙ ap (λ q. if q then x else block_bit (block s (map_block sb n)) (c % bits_per_block))
          (same_index same))
  | no other ↦
      ap (λ (v : Block). block_bit v (c % bits_per_block))
        (w.elsewhere (map_block sb c) (ne→== (map_block sb c) (map_block sb n) other))
      ∙ rw (ne→== c n (λ e. other (ap (map_block sb) e))) refl
]
  where
    same_index :
        map_block sb c ≡ map_block sb n → (c % bits_per_block == n % bits_per_block) ≡ (c == n)
    same_index e = elim (ℕ_discrete c n) [
      | yes same ↦
          rw (same, eq→== n n refl, eq→== (n % bits_per_block) (n % bits_per_block) refl) refl
      | no ne ↦
          rw
            (
              ne→== c n ne,
              ne→== (c % bits_per_block) (n % bits_per_block) (λ q. ne (omega (arith, e, q))),
            )
            refl
    ]

both-Taken :
    (k : ℕ) (sb : Superblock) (s t u : Store) (b n : ℕ)
    → MapUsed sb s
    → (b ≤ n) × (n < sb.size)
    → used sb s n ≡ 0
    → ((c : ℕ) → b ≤ c → c < n → used sb s c ≢ 0)
    → Wrote (k + 1) s (map_block sb n) (mark (block s (map_block sb n)) (n % bits_per_block) 1) t
    → Wrote k t n (λ i. 0) u
    → Taken sb s b n u
both-Taken k sb s t u b n m inside free lowest w z = record {
  inside = inside;
  free = free;
  lowest = lowest;
  bits = λ c lt.
      ap (λ (v : Block). block_bit v (c % bits_per_block))
        (z.elsewhere (map_block sb c) (ne→== (map_block sb c) n (map-ne sb s n c m free lt)))
      ∙ marked-used (k + 1) sb s t n 1 (omega arith) w c;
  zeros = λ i. ap (λ (g : Block). g i) z.here;
  others =
      λ c ne ne_map. z.elsewhere c (ne→== c n ne) ∙ w.elsewhere c (ne→== c (map_block sb n) ne_map);
}

take_block-Taken :
    (k : ℕ) (sb : Superblock) (s : Store) (b bi : ℕ)
    → Room (k + 1 + 1) s
    → MapUsed sb s
    → b % bits_per_block ≡ 0
    → bi < bits_per_block
    → b + bi < sb.size
    → block_bit (block s (map_block sb b)) bi ≡ 0
    → ((j : ℕ) → j < bi → block_bit (block s (map_block sb b)) j ≢ 0)
    → (t : Store) × (take_block sb b bi s ≡ ok (b + bi, t)) × Taken sb s b (b + bi) t × Room k t
unfolding take_block bzero
take_block-Taken k sb s b bi r m start lt inside free before =
    let n : ℕ = b + bi in
    let mb : ℕ = map_block sb b in
    let same_map : map_block sb n ≡ mb = omega (arith, start, lt) in
    let index : n % bits_per_block ≡ bi = omega (arith, start, lt) in
    let (t, e, w) = write_block-Wrote (k + 1) s mb (mark (block s mb) bi 1) r in
    let (u, f, z) = write_block-Wrote k t n (λ i. 0) w.room in
    (
      u,
      rw (e, f) refl,
      both-Taken k sb s t u b n m (omega arith, inside) (rw (same_map, index) free)
          (λ c le below e. before (c - b) (omega (arith, le, below)) (sym (bit_at c le below) ∙ e))
          (subst (λ j. Wrote (k + 1) s j (mark (block s j) (n % bits_per_block) 1) t) (sym same_map)
            (subst (λ j. Wrote (k + 1) s mb (mark (block s mb) j 1) t) (sym index) w))
          z,
      z.room,
    )
  where
    bit_at :
        (c : ℕ) → b ≤ c → c < b + bi → used sb s c ≡ block_bit (block s (map_block sb b)) (c - b)
    bit_at c le below =
        let same_map : map_block sb c ≡ map_block sb b = omega (arith, start, lt, le, below) in
        let index : c % bits_per_block ≡ c - b = omega (arith, start, lt, le, below) in
        rw (same_map, index) refl

-- Blocks that are in use may stand before those of the search.
widen :
    (k : ℕ) (sb : Superblock) (s : Store) (b b' n : ℕ) (t : Store)
    → b ≤ b'
    → ((c : ℕ) → b ≤ c → c < b' → c < sb.size → used sb s c ≢ 0)
    → Allocated k sb s b' n t
    → Allocated k sb s b n t
widen k sb s b b' n t le h (taken _ _ x r) =
    taken n t
      (record {
        inside = (omega (arith, le, x.inside), x.inside.1);
        free = x.free;
        lowest = λ c le' below. elim (dec_lt c b') [
          | yes lt ↦ h c le' lt (omega (arith, below, x.inside))
          | no ge ↦ x.lowest c (omega (arith, ge)) below
        ];
        bits = x.bits;
        zeros = x.zeros;
        others = x.others;
      })
      r
widen k sb s b b' _ _ le h (none_free all) = none_free λ c le' lt. elim (dec_lt c b') [
  | yes below ↦ h c le' below lt
  | no ge ↦ all c (omega (arith, ge)) lt
]

balloc_loop-Allocated :
    (left k : ℕ) (sb : Superblock) (s : Store) (b : ℕ)
    → Room (k + 1 + 1) s
    → MapUsed sb s
    → b % bits_per_block ≡ 0
    → sb.size ≤ b + left * bits_per_block
    → (n : ℕ) × (t : Store) × (balloc_loop sb left b s ≡ ok (n, t)) × Allocated k sb s b n t
unfolding balloc_loop
balloc_loop-Allocated zero k sb s b r m start big =
    (0, s, refl, none_free λ c le lt. absurd (omega (arith, le, lt, big)))
balloc_loop-Allocated (suc left) k sb s b r m start big =
    split (find_bit (min bits_per_block (sb.size - b)) 0 (block s (map_block sb b)))
      (find_bit-Found (min bits_per_block (sb.size - b)) 0 (block s (map_block sb b)))
      (balloc_loop sb left (b + bits_per_block) s)
      (balloc_loop-Allocated left k sb s (b + bits_per_block) r m (omega (arith, start))
        (omega (arith, big)))
  where
    bit_at :
        (c : ℕ)
        → b ≤ c
        → c < b + bits_per_block
        → used sb s c ≡ block_bit (block s (map_block sb b)) (0 + (c - b))
    bit_at c le below =
        let same_map : map_block sb c ≡ map_block sb b = omega (arith, start, le, below) in
        let index : c % bits_per_block ≡ 0 + (c - b) = omega (arith, start, le, below) in
        rw (same_map, index) refl

    split :
        (o : Option ℕ)
        → Found (min bits_per_block (sb.size - b)) 0 (block s (map_block sb b)) o
        → (rest : Outcome (ℕ × Store))
        → (n : ℕ) × (t : Store) × (rest ≡ ok (n, t)) × Allocated k sb s (b + bits_per_block) n t
        → (n : ℕ) × (t : Store) × (◌≡◌ {A = Outcome (ℕ × Store)}
            (elim o [ some bi ↦ take_block sb b bi s | none ↦ rest ])
            (ok (n, t)))
          × Allocated k sb s b n t
    split _ (full h) rest (n, t, e, a) = (
      n,
      t,
      e,
      widen k sb s b (b + bits_per_block) n t (omega arith)
          (λ c le below lt z.
            h (c - b) (omega (arith, le, below, lt)) (sym (bit_at c le below) ∙ z))
          a,
    )
    split _ (first d lt free before) rest ih =
        let (t, e, x, room) =
          take_block-Taken k sb s b (0 + d) r m start (omega (arith, lt)) (omega (arith, lt)) free
            (λ j below z.
              before j (omega (arith, below))
                (ap (block_bit (block s (map_block sb b))) (omega arith) ∙ z)) in
        (b + (0 + d), t, e, taken (b + (0 + d)) t x room)

-- `balloc` with room for two more blocks in the log succeeds. If a block is free, it returns the
-- first free one, which is then in use and all zeros; no other block's bit changes, and no block
-- but this one and its map block. If none is free, it returns 0 and changes nothing. The map's own
-- blocks are in use before.
pub balloc-Allocated :
    (k : ℕ) (sb : Superblock) (s : Store)
    → Room (k + 1 + 1) s
    → MapUsed sb s
    → (n : ℕ) × (t : Store) × (balloc sb s ≡ ok (n, t)) × Allocated k sb s 0 n t
unfolding balloc
balloc-Allocated k sb s r m =
    balloc_loop-Allocated ((sb.size + bits_per_block - 1) / bits_per_block) k sb s 0 r m refl
      (omega arith)
