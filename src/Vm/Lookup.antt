-- ===== src/Vm/Lookup.antt =====
-- What `walkaddr` finds.
use csklub_os.Base.{
  ℕ, ◌<◌, ◌≡◌, refl, arith, false, not, ◌&&◌, Option, none, some, leb, if◌then◌else◌,
}
use csklub_os.Memory.{read64}
use csklub_os.Kalloc.{Kmem}
use csklub_os.Vm.{max_va, is_valid, is_user, pte2pa, walkaddr}
use csklub_os.Vm.Tree.{node, leaf, leaf-some, leaf-none}
use csklub_os.Vm.Walk.{walk-last, last_entry}

-- The physical page of a user address, 0 if it has none.
abbrev pub user_page : ℕ → ℕ
user_page pte = if is_valid pte && is_user pte then pte2pa pte else 0

-- `walkaddr` reads the entry for the page.
pub walkaddr-leaf :
    (root va : ℕ) (s : Kmem) → va < max_va → walkaddr root va s ≡ user_page (leaf s.memory root va)
unfolding walkaddr
walkaddr-leaf root va s la =
    let inside : leb max_va va ≡ false = ground (arith, la) in
    rw (walkaddr, inside, walk-last root va s la) (go (node s.memory root 2 va) refl)
  where
    go :
        (o : Option ℕ)
        → node s.memory root 2 va ≡ o
        → ◌≡◌ {A = ℕ}
            (elim (last_entry va o) [
              | none ↦ 0
              | some at ↦
                  if not (is_valid (read64 s.memory at))
                  then 0
                  else if not (is_user (read64 s.memory at))
                  then 0
                  else pte2pa (read64 s.memory at)
            ])
            (user_page (leaf s.memory root va))
    go none h = rw (leaf-none s.memory root va h) refl
    go (some p) h = rw (leaf-some s.memory root va p h) (ground arith)
