-- ===== src/Vm/Unmap.antt =====
-- One page is unmapped and freed.
use csklub_os.Base.{
  ℕ, ◌+◌, ◌/◌, ◌%◌, ◌<◌, ◌≡◌, ◌≢◌, inl, inr, refl, sym, ◌∙◌, ap, arith, true, false, List, ◌∷◌, mem,
  some, ok, leb, ◌==◌, if◌then◌else◌, Option-cases, ne→==,
}
use csklub_os.Memory.{Memory, read64}
use csklub_os.Str.Move.{Outside}
use csklub_os.Kalloc.{Kmem, page_size, kfree}
use csklub_os.Kalloc.Chain.{Chain, IsPage, kfree-Chain}
use csklub_os.Vm.{max_va, is_valid, pte_flags, pte2pa, walk, set64, unmap_page}
use csklub_os.Vm.Tree.{slot, node, leaf, IsTree, leaf-some, leaf-none}
use csklub_os.Vm.Grow.{bytes-node, same-IsTree}
use csklub_os.Vm.Descend.{Space}
use csklub_os.Vm.Walk.{walk-last}
use csklub_os.Vm.Entry.{set64-Space}

-- The physical page that an address is mapped to.
abbrev pub page_of : ℕ → Kmem → ℕ → ℕ
page_of root s va = pte2pa (leaf s.memory root va)

-- The page of an address is mapped, and neither free nor a table.
pub record Owned (e root : ℕ) (s : Kmem) (free : List ℕ) (va : ℕ) : Type 0 where
  pub valid : is_valid (leaf s.memory root va) ≡ true
  pub a_leaf : pte_flags (leaf s.memory root va) ≢ 1
  pub page : IsPage e (page_of root s va)
  pub unfree : mem (page_of root s va) free ≡ false
  pub no_table :
      (d vb p : ℕ) → d < 3 → vb < max_va → node s.memory root d vb ≡ some p → p ≢ page_of root s va

-- A write outside the tables leaves them as they are.
Outside-node :
    (m m' : Memory) (root : ℕ) (free : List ℕ) (pa : ℕ)
    → IsTree m root free
    → pa % 4096 ≡ 0
    → ((d vb p : ℕ) → d < 3 → vb < max_va → node m root d vb ≡ some p → p ≢ pa)
    → ((a : ℕ) → Outside a pa page_size → m' a ≡ m a)
    → ((d vb : ℕ) → d < 3 → vb < max_va → node m' root d vb ≡ node m root d vb)
      × ((vb : ℕ) → vb < max_va → leaf m' root vb ≡ leaf m root vb)
Outside-node m m' root free pa t al apart same = bytes-node m m' root (λ d vb p k ld lb hp lt.
    same (p + k) (omega (arith, t.aligned d vb p ld lb hp, apart d vb p ld lb hp, al, lt)))

-- What freeing one page comes to.
pub record Unmapped1 (e root : ℕ) (s : Kmem) (free : List ℕ) (va : ℕ) (t : Kmem) : Type 0 where
  pub space : Space e root t (page_of root s va ∷ free)
  pub nodes : (d vb : ℕ) → d < 3 → vb < max_va → node t.memory root d vb ≡ node s.memory root d vb
  pub leaves :
      (vb : ℕ)
      → vb < max_va
      → leaf t.memory root vb ≡ (if vb / 4096 == va / 4096 then 0 else leaf s.memory root vb)

-- A page that is no table may become free.
cons-IsTree :
    (m : Memory) (root : ℕ) (free : List ℕ) (pa : ℕ)
    → IsTree m root free
    → ((d vb p : ℕ) → d < 3 → vb < max_va → node m root d vb ≡ some p → p ≢ pa)
    → IsTree m root (pa ∷ free)
unfolding mem
cons-IsTree m root free pa t apart = record {
  aligned = t.aligned;
  apart = t.apart;
  taken = λ d vb p ld lb hp. ground (arith, t.taken d vb p ld lb hp, apart d vb p ld lb hp);
}

-- The page is freed, and then its entry is cleared.
freed_entry :
    (e root : ℕ) (s t : Kmem) (free : List ℕ) (va p : ℕ)
    → Space e root s free
    → va < max_va
    → Owned e root s free va
    → node s.memory root 2 va ≡ some p
    → Chain e t.memory t.freelist (page_of root s va ∷ free)
    → ((a : ℕ) → Outside a (page_of root s va) page_size → t.memory a ≡ s.memory a)
    → Unmapped1 e root s free va (set64 (slot 2 va p) 0 t)
freed_entry e root s t free va p w la o hp chain same =
    let pa = page_of root s va in
    let (nodes, leaves) =
      Outside-node s.memory t.memory root free pa w.tree o.page.aligned o.no_table same in
    let tree =
      same-IsTree s.memory t.memory root (pa ∷ free) nodes
        (cons-IsTree s.memory root free pa w.tree o.no_table) in
    let between : Space e root t (pa ∷ free) = record { chain = chain; tree = tree } in
    let (space, nodes', each) =
      set64-Space e root t (pa ∷ free) va p 0 between la (nodes 2 va (omega arith) la ∙ hp)
        (omega arith) in
    record {
      space = space;
      nodes = λ d vb ld lb. nodes' d vb ld lb ∙ nodes d vb ld lb;
      leaves =
          λ vb lb. each vb lb ∙ ap (λ y. if vb / 4096 == va / 4096 then 0 else y) (leaves vb lb);
    }

pub unmap_page-Unmapped1 :
    (e root : ℕ) (s : Kmem) (free : List ℕ) (va : ℕ)
    → Space e root s free
    → va < max_va
    → Owned e root s free va
    → (t : Kmem) × (unmap_page e root va true s ≡ ok t) × Unmapped1 e root s free va t
unfolding unmap_page walk
unmap_page-Unmapped1 e root s free va w la o = elim (Option-cases (node s.memory root 2 va)) [
  | inl lost ↦ absurd (ground (arith, o.valid, leaf-none s.memory root va lost))
  | inr (p, hp) ↦
      let inside : leb max_va va ≡ false = ground (arith, la) in
      let pte = sym (leaf-some s.memory root va p hp) in
      let found : walk false root va s ≡ ok (some (slot 2 va p), s) =
        rw (walk, inside, walk-last root va s la, hp) refl in
      let valid : is_valid (read64 s.memory (slot 2 va p)) ≡ true =
        ap (λ y. is_valid y) pte ∙ o.valid in
      let flags : (pte_flags (read64 s.memory (slot 2 va p)) == 1) ≡ false =
        ap (λ y. pte_flags y == 1) pte ∙ ne→== (pte_flags (leaf s.memory root va)) 1 o.a_leaf in
      let (t, q, chain, same) = kfree-Chain e (page_of root s va) s free o.page o.unfree w.chain in
      let freed : kfree e (pte2pa (read64 s.memory (slot 2 va p))) s ≡ ok t =
        ap (λ y. kfree e (pte2pa y) s) pte ∙ q in
      (
        set64 (slot 2 va p) 0 t,
        rw (unmap_page, found, valid, flags, freed) refl,
        freed_entry e root s t free va p w la o hp chain same,
      )
]
