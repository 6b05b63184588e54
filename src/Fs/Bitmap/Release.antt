-- ===== src/Fs/Bitmap/Release.antt =====
-- What `bfree` gives back.
use csklub_os.Base.{
  ℕ, ◌+◌, ◌%◌, ◌<◌, ◌≡◌, ◌≢◌, refl, ◌∙◌, sym, subst, arith, ok, panic, ◌==◌, eq→==, ne→==,
  if◌then◌else◌, ℕ_discrete,
}
use csklub_os.Fs.Store.{Superblock, Store, block, Room, write_block-Wrote}
use csklub_os.Fs.Bitmap.{bits_per_block, map_block, mark, balloc, bfree, used, MapUsed}
use csklub_os.Fs.Bitmap.Alloc.{Taken, Allocated, taken, none_free, balloc-Allocated, marked-used}

-- The block's bit is clear, and nothing but it has changed.
pub record Freed (sb : Superblock) (s : Store) (n : ℕ) (t : Store) : Type 0 where
  pub bits : (c : ℕ) → used sb t c ≡ (if c == n then 0 else used sb s c)
  pub others : (c : ℕ) → c ≢ map_block sb n → block t c ≡ block s c

-- `bfree` of a free block stops the machine. Of a block in use, with room for one more block in the
-- log, it clears the bit, and changes no other bit and no block but the map's.
pub bfree-Freed :
    (k : ℕ) (sb : Superblock) (s : Store) (n : ℕ)
    → Room (k + 1) s
    → (used sb s n ≡ 0 → bfree sb n s ≡ panic)
      × (used sb s n ≢ 0 → (t : Store) × (bfree sb n s ≡ ok t) × Freed sb s n t × Room k t)
unfolding bfree
bfree-Freed k sb s n r = (
  λ e. rw (bfree, eq→== (used sb s n) 0 e) refl,
  λ ne.
      let (t, e, w) =
        write_block-Wrote k s (map_block sb n)
          (mark (block s (map_block sb n)) (n % bits_per_block) 0) r in
      (
        t,
        rw (bfree, ne→== (used sb s n) 0 ne) e,
        record {
          bits = marked-used k sb s t n 0 (omega arith) w;
          others = λ c other. w.elsewhere c (ne→== c (map_block sb n) other);
        },
        w.room,
      ),
)

Taken-bfree :
    (k : ℕ) (sb : Superblock) (s t : Store) (n : ℕ)
    → Room (k + 1) t
    → Taken sb s 0 n t
    → (u : Store) × (bfree sb n t ≡ ok u) × ((c : ℕ) → c < sb.size → used sb u c ≡ used sb s c)
Taken-bfree k sb s t n r x =
    let mine : used sb t n ≡ 1 = x.bits n x.inside.1 ∙ rw (eq→== n n refl) refl in
    let (u, e, f, room) = (bfree-Freed k sb t n r).1 (omega (arith, mine)) in
    (
      u,
      e,
      λ c lt. elim (ℕ_discrete c n) [
        | yes same ↦ rw same (f.bits n ∙ rw (eq→== n n refl) (sym x.free))
        | no other ↦ f.bits c ∙ rw (ne→== c n other) (x.bits c lt ∙ rw (ne→== c n other) refl)
      ],
    )

-- What `balloc` took, `bfree` gives back: it does not stop the machine, and each block of the
-- disk has the bit again that it had before. The log has room for three more blocks, and the map's own
-- blocks are in use before.
pub bfree-balloc :
    (k : ℕ) (sb : Superblock) (s t : Store) (n : ℕ)
    → Room (k + 1 + 1 + 1) s
    → MapUsed sb s
    → balloc sb s ≡ ok (n, t)
    → n ≢ 0
    → (u : Store) × (bfree sb n t ≡ ok u) × ((c : ℕ) → c < sb.size → used sb u c ≡ used sb s c)
bfree-balloc k sb s t n r m e nz =
    let (n', t', e', a) = balloc-Allocated (k + 1) sb s r m in
    let same : ◌≡◌ {A = ℕ × Store} (n', t') (n, t) = cc in
    result n t (subst (λ (q : ℕ × Store). Allocated (k + 1) sb s 0 q.0 q.1) same a) nz
  where
    result :
        (n : ℕ) (t : Store)
        → Allocated (k + 1) sb s 0 n t
        → n ≢ 0
        → (u : Store) × (bfree sb n t ≡ ok u) × ((c : ℕ) → c < sb.size → used sb u c ≡ used sb s c)
    result _ _ (taken n t x room) nz = Taken-bfree k sb s t n room x
    result _ _ (none_free all) nz = absurd (nz refl)
