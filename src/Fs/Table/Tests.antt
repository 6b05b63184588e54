-- ===== src/Fs/Table/Tests.antt =====
-- A table of two entries, on the disk of eight blocks.
use csklub_os.Base.{
  ℕ, zero, suc, ◌+◌, ◌≡◌, refl, sym, ap, arith, false, List, [], ◌∷◌, some, ok, get_elem?, set,
}
use csklub_os.Bio.Held.{occurs}
use csklub_os.Fs.Tests.{small_disk, begun, begun-Room}
use csklub_os.Fs.Store.{Store}
use csklub_os.Fs.Inode.{iupdate}
use csklub_os.Fs.Table.{Entry, scan, iget, ilock, renewed, blank, ialloc_number}
use csklub_os.Fs.Table.Keep.{Table, gets, here, next, IsTable, refs}
use csklub_os.Fs.Table.Unique.{Reach-IsTable}
use csklub_os.Fs.Table.Born.{Searched, ialloc_number-Searched}
use csklub_os.Fs.Table.Load.{Loaded, ilock-iupdate}

abbrev unused : Entry
unused = record { dev = 0; ref = 0; valid = false; locked = false; pid = 0; node = blank 0 0 }

abbrev two_unused : List Entry
two_unused = unused ∷ unused ∷ []

abbrev start : Table
start = record { entries = two_unused; holders = [] }

unused-ref : (i : ℕ) (e : Entry) → get_elem? two_unused i ≡ some e → e.ref ≡ 0
unused-ref zero e h = let q : unused ≡ e = cc h in ap (λ x. x.ref) (sym q)
unused-ref (suc zero) e h = let q : unused ≡ e = cc h in ap (λ x. x.ref) (sym q)
unused-ref (suc (suc i)) e h = absurd (cc h)

start-IsTable : IsTable start
unfolding occurs
start-IsTable = record {
  counted = none_held;
  few = omega arith;
  unique = λ i j e f p q re rf d n. absurd (omega (arith, re, unused-ref i e p));
}
  where
    none_held : (i : ℕ) → refs i two_unused ≡ occurs i []
    none_held zero = refl
    none_held (suc zero) = refl
    none_held (suc (suc i)) = refl

-- Inode 3 is found.
abbrev one_held : Table
one_held = record { entries = renewed 1 3 unused ∷ unused ∷ []; holders = 0 ∷ [] }

Reach-IsTable_example : IsTable one_held
unfolding iget scan
Reach-IsTable_example =
    Reach-IsTable start one_held start-IsTable
      (next here (gets 1 3 0 (renewed 1 3 unused ∷ unused ∷ []) (omega arith) refl))

ialloc_number-Searched_example : Searched small_disk begun 2 1 16 (ialloc_number small_disk 2 begun)
ialloc_number-Searched_example =
    ialloc_number-Searched 0 small_disk begun 2 (begun-Room (0 + 1) (omega arith)) (omega arith)
      (omega arith)

ilock-iupdate_example :
    (t : Store) × (f : Entry) × (iupdate small_disk (blank 3 2) begun ≡ ok t)
    × (ilock small_disk t 7 0 one_held.entries ≡ ok (some (set one_held.entries 0 f)))
    × Loaded 7 (blank 3 2) (renewed 1 3 unused) f
ilock-iupdate_example =
    ilock-iupdate 0 small_disk begun (blank 3 2) 7 0 one_held.entries (renewed 1 3 unused)
      (begun-Room (0 + 1) (omega arith)) (omega arith) (omega arith)
      (λ z. absurd (omega (arith, z))) refl refl refl refl refl
