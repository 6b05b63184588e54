-- ===== src/Fs/Table/Born.antt =====
-- Which inode `ialloc` takes.
use csklub_os.Base.{
  ℕ, zero, suc, ◌+◌, ◌-◌, ◌^◌, ◌≤◌, ◌<◌, ◌≡◌, ◌≢◌, ◌⊎◌, refl, sym, subst, arith, Option, none, some,
  Outcome, ok, inl, inr, ℕ_discrete, eq→==, ne→==,
}
use csklub_os.Fs.Store.{Superblock, Store, block, Room}
use csklub_os.Fs.Inode.{Inode, direct_count, get_inode, inode_block, iupdate}
use csklub_os.Fs.Inode.Codec.{SameInode, iupdate-get}
use csklub_os.Fs.Table.{blank, ialloc_loop, ialloc_number}

-- An inode on the disk.
abbrev pub stored : Superblock → Store → ℕ → Inode
stored sb s inum = get_inode (block s (inode_block sb inum)) inum

-- The inode is new: the first from `lo` on that had no type, now with the type `kind` and zeros in all its
-- other fields.
pub record New (sb : Superblock) (s : Store) (kind lo hi inum : ℕ) (t : Store) : Type 0 where
  pub low : lo ≤ inum
  pub high : inum < hi
  pub was_free : (stored sb s inum).kind ≡ 0
  pub first : (j : ℕ) → lo ≤ j → j < inum → (stored sb s j).kind ≢ 0
  pub made : (stored sb t inum).kind ≡ kind
  pub cleared :
      ((stored sb t inum).major ≡ 0)
      × ((stored sb t inum).minor ≡ 0)
      × ((stored sb t inum).nlink ≡ 0)
      × ((stored sb t inum).size ≡ 0)
      × ((i : ℕ) → i ≤ direct_count → (stored sb t inum).addrs i ≡ 0)
  pub others : (j : ℕ) → j ≢ inum → SameInode (stored sb t j) (stored sb s j)

-- No inode is free.
abbrev pub AllUsed : Superblock → Store → ℕ → ℕ → Type 0
AllUsed sb s lo hi = (j : ℕ) → lo ≤ j → j < hi → (stored sb s j).kind ≢ 0

-- A result of the search among the numbers from `lo` to `hi`.
abbrev pub Searched : Superblock → Store → ℕ → ℕ → ℕ → Outcome (Option ℕ × Store) → Type 0
Searched sb s kind lo hi o =
    ((inum : ℕ) × (t : Store) × (o ≡ ok (some inum, t)) × New sb s kind lo hi inum t)
    ⊎ ((o ≡ ok (none, s)) × AllUsed sb s lo hi)

taken-New :
    (k : ℕ) (sb : Superblock) (s : Store) (kind lo hi : ℕ)
    → Room (k + 1) s
    → kind < 2 ^ 16
    → lo < hi
    → (stored sb s lo).kind ≡ 0
    → (t : Store) × (iupdate sb (blank lo kind) s ≡ ok t) × New sb s kind lo hi lo t
taken-New k sb s kind lo hi room small lt free =
    let (t, e, made, others, rest) = iupdate-get k sb s (blank lo kind) room small (omega arith) in
    (
      t,
      e,
      record {
        low = omega arith;
        high = lt;
        was_free = free;
        first = λ j le below. absurd (omega (arith, le, below));
        made = made.kind;
        cleared = (made.major, made.minor, made.nlink, made.size, made.addrs);
        others = others;
      },
    )

from_next :
    (sb : Superblock) (s : Store) (lo hi : ℕ)
    → (stored sb s lo).kind ≢ 0
    → AllUsed sb s (lo + 1) hi
    → AllUsed sb s lo hi
from_next sb s lo hi used all j le lt = elim (ℕ_discrete j lo) [
  | yes same ↦ subst (λ i. (stored sb s i).kind ≢ 0) (sym same) used
  | no other ↦ all j (omega (arith, le, other)) lt
]

later-New :
    (sb : Superblock) (s : Store) (kind lo hi inum : ℕ) (t : Store)
    → (stored sb s lo).kind ≢ 0
    → New sb s kind (lo + 1) hi inum t
    → New sb s kind lo hi inum t
later-New sb s kind lo hi inum t used new = record {
  low = omega (arith, new.low);
  high = new.high;
  was_free = new.was_free;
  first = from_next sb s lo inum used new.first;
  made = new.made;
  cleared = new.cleared;
  others = new.others;
}

ialloc_loop-Searched :
    (k : ℕ) (sb : Superblock) (s : Store) (kind left lo hi : ℕ)
    → Room (k + 1) s
    → kind < 2 ^ 16
    → lo + left ≡ hi
    → Searched sb s kind lo hi (ialloc_loop sb kind left lo s)
unfolding ialloc_loop iupdate
ialloc_loop-Searched k sb s kind zero lo hi room small e =
    inr (refl, λ j le lt. absurd (omega (arith, le, lt, e)))
ialloc_loop-Searched k sb s kind (suc left) lo hi room small e =
    elim (ℕ_discrete (stored sb s lo).kind 0) [
      | yes free ↦
          let (t, q, new) = taken-New k sb s kind lo hi room small (omega (arith, e)) free in
          inl (lo, t, rw (ialloc_loop, eq→== (stored sb s lo).kind 0 free, q) refl, new)
      | no used ↦
          let step = ne→== (stored sb s lo).kind 0 used in
          elim (ialloc_loop-Searched k sb s kind left (lo + 1) hi room small (omega (arith, e))) [
            | inl (inum, t, q, new) ↦
                inl (inum, t, rw (ialloc_loop, step) q, later-New sb s kind lo hi inum t used new)
            | inr (q, all) ↦ inr (rw (ialloc_loop, step) q, from_next sb s lo hi used all)
          ]
    ]

-- With at least one inode on the disk, a type that fits its 16 bits, and room for one more block in the
-- log, `ialloc` takes the first inode from 1 on that has no
-- type, gives it the type, sets its device numbers, its links, its size and its addresses to 0, and leaves every other inode alone; it finds
-- none exactly if all of them have a type, and then writes nothing.
pub ialloc_number-Searched :
    (k : ℕ) (sb : Superblock) (s : Store) (kind : ℕ)
    → Room (k + 1) s
    → kind < 2 ^ 16
    → 1 ≤ sb.ninodes
    → Searched sb s kind 1 sb.ninodes (ialloc_number sb kind s)
unfolding ialloc_number
ialloc_number-Searched k sb s kind room small some_inode =
    ialloc_loop-Searched k sb s kind (sb.ninodes - 1) 1 sb.ninodes room small
      (omega (arith, some_inode))
