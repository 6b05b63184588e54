-- ===== src/Vm/Free.antt =====
-- What `uvmunmap` frees.
use csklub_os.Base.{
  ℕ, zero, suc, ◌+◌, ◌*◌, ◌/◌, ◌%◌, ◌≤◌, ◌<◌, ◌≡◌, ◌≢◌, ◌⊎◌, inl, inr, refl, sym, ◌∙◌, ap, subst,
  arith, true, false, List, ◌∷◌, mem, ok, ◌==◌, ◌!=◌, if◌then◌else◌, Bool-cases,
}
use csklub_os.Kalloc.{Kmem, page_size}
use csklub_os.Kalloc.Chain.{IsPage}
use csklub_os.Vm.{max_va, is_valid, pte_flags, pte2pa, unmap_loop, unmap_rounds, uvmunmap}
use csklub_os.Vm.Tree.{node, leaf}
use csklub_os.Vm.Descend.{Space}
use csklub_os.Vm.Map.{in_pages}
use csklub_os.Vm.Tree.{leaf-page}
use csklub_os.Vm.Unmap.{page_of, Owned, Unmapped1, unmap_page-Unmapped1}

-- The pages of a range are mapped to pages of their own.
pub record AllOwned (e root : ℕ) (s : Kmem) (free : List ℕ) (va n : ℕ) : Type 0 where
  pub each : (vb : ℕ) → in_pages va n vb ≡ true → Owned e root s free vb
  pub apart :
      (vb vc : ℕ)
      → in_pages va n vb ≡ true
      → in_pages va n vc ≡ true
      → page_of root s vb ≡ page_of root s vc
      → vb / 4096 ≡ vc / 4096

-- The range is mapped no longer, and its pages are free.
pub record Unmapped (e root : ℕ) (s : Kmem) (free : List ℕ) (va n : ℕ) (t : Kmem) : Type 0 where
  pub free' : List ℕ
  pub space : Space e root t free'
  pub leaves :
      (vb : ℕ)
      → vb < max_va
      → leaf t.memory root vb ≡ (if in_pages va n vb then 0 else leaf s.memory root vb)
  pub freed : (vb : ℕ) → in_pages va n vb ≡ true → mem (page_of root s vb) free' ≡ true
  pub kept : (q : ℕ) → mem q free ≡ true → mem q free' ≡ true
  pub only :
      (q : ℕ)
      → mem q free' ≡ true
      → (mem q free ≡ true) ⊎ ((vb : ℕ) × (in_pages va n vb ≡ true) × (page_of root s vb ≡ q))

-- A later page of the range after one has been freed.
later-Owned :
    (e root : ℕ) (s t : Kmem) (free : List ℕ) (pa vb : ℕ)
    → Owned e root s free vb
    → page_of root s vb ≢ pa
    → ((d vc : ℕ) → d < 3 → vc < max_va → node t.memory root d vc ≡ node s.memory root d vc)
    → leaf t.memory root vb ≡ leaf s.memory root vb
    → Owned e root t (pa ∷ free) vb
unfolding mem
later-Owned e root s t free pa vb o ne nodes same =
    let page : page_of root t vb ≡ page_of root s vb = ap (λ y. pte2pa y) same in
    record {
      valid = ap (λ y. is_valid y) same ∙ o.valid;
      a_leaf = λ z. o.a_leaf (ap (λ y. pte_flags y) (sym same) ∙ z);
      page = subst (IsPage e) (sym page) o.page;
      unfree = ground (arith, o.unfree, ne, page);
      no_table =
          λ d vc p ld lc hp z. o.no_table d vc p ld lc (sym (nodes d vc ld lc) ∙ hp) (z ∙ page);
    }

module _ (e root : ℕ) (s t : Kmem) (free : List ℕ) (va n : ℕ) (av : va % 4096 ≡ 0)
    (lv : va + suc n * 4096 ≤ max_va) (all : AllOwned e root s free va (suc n))
    (one : Unmapped1 e root s free va t) where
  later-leaf :
      (vb : ℕ)
      → in_pages (va + page_size) n vb ≡ true
      → leaf t.memory root vb ≡ leaf s.memory root vb
  later-leaf vb h =
      let other : (vb / 4096 == va / 4096) ≡ false = ground (arith, h, av) in
      one.leaves vb (ground (arith, h, lv)) ∙ rw other refl

  later-AllOwned : AllOwned e root t (page_of root s va ∷ free) (va + page_size) n
  later-AllOwned = record {
    each = λ vb h.
        later-Owned e root s t free (page_of root s va) vb (all.each vb (ground (arith, h)))
          (λ z.
            let same : vb / 4096 ≡ va / 4096 =
              all.apart vb va (ground (arith, h)) (ground arith) z in
            absurd (ground (arith, h, same)))
          one.nodes (later-leaf vb h);
    apart = λ vb vc h h' z.
        all.apart vb vc (ground (arith, h)) (ground (arith, h'))
          (ap (λ y. pte2pa y) (sym (later-leaf vb h)) ∙ z ∙ ap (λ y. pte2pa y) (later-leaf vc h'));
  }

  more-Unmapped :
      (u : Kmem)
      → Unmapped e root t (page_of root s va ∷ free) (va + page_size) n u
      → Unmapped e root s free va (suc n) u
  unfolding mem
  more-Unmapped u rest = record {
    free' = rest.free';
    space = rest.space;
    leaves = λ vb lb. elim (Bool-cases (in_pages (va + page_size) n vb)) [
      | inl later ↦
          let within : in_pages va (suc n) vb ≡ true = ground (arith, later) in
          rest.leaves vb lb ∙ rw (later, within) refl
      | inr not_later ↦ elim (Bool-cases (vb / 4096 == va / 4096)) [
        | inl here ↦
            let within : in_pages va (suc n) vb ≡ true = ground (arith, here, av) in
            rest.leaves vb lb ∙ rw (not_later, within) (one.leaves vb lb ∙ rw here refl)
        | inr not_here ↦
            let without : in_pages va (suc n) vb ≡ false =
              ground (arith, not_later, not_here, av) in
            rest.leaves vb lb ∙ rw (not_later, without) (one.leaves vb lb ∙ rw not_here refl)
      ]
    ];
    freed = λ vb h. elim (Bool-cases (in_pages (va + page_size) n vb)) [
      | inl later ↦
          subst (λ q. mem q rest.free' ≡ true) (ap (λ y. pte2pa y) (later-leaf vb later))
            (rest.freed vb later)
      | inr not_later ↦
          let here : vb / 4096 ≡ va / 4096 = ground (arith, h, not_later, av) in
          let same : page_of root s vb ≡ page_of root s va =
            ap (λ y. pte2pa y) (leaf-page s.memory root vb va here) in
          subst (λ q. mem q rest.free' ≡ true) (sym same)
            (rest.kept (page_of root s va) (ground arith))
    ];
    kept = λ q h. rest.kept q (ground (arith, h));
    only = λ q h. elim (rest.only q h) [
      | inl old ↦ elim (Bool-cases (q == page_of root s va)) [
        | inl first ↦ inr (va, ground arith, ground (arith, first))
        | inr other ↦ inl (ground (arith, old, other))
      ]
      | inr (vb, later, eq) ↦
          inr (vb, ground (arith, later), ap (λ y. pte2pa y) (sym (later-leaf vb later)) ∙ eq)
    ];
  }

unmap_loop-Unmapped :
    (e root : ℕ) (s : Kmem) (free : List ℕ) (n va : ℕ)
    → Space e root s free
    → va % 4096 ≡ 0
    → va + n * 4096 ≤ max_va
    → AllOwned e root s free va n
    → (t : Kmem) × (unmap_loop e root n va true s ≡ ok t) × Unmapped e root s free va n t
unfolding unmap_loop
unmap_loop-Unmapped e root s free zero va w av lv all = (
  s,
  refl,
  record {
    free' = free;
    space = w;
    leaves = λ vb lb. let out : in_pages va 0 vb ≡ false = ground arith in rw out refl;
    freed = λ vb h. absurd (ground (arith, h));
    kept = λ q h. h;
    only = λ q h. inl h;
  },
)
unmap_loop-Unmapped e root s free (suc n) va w av lv all =
    let (t, q, one) =
      unmap_page-Unmapped1 e root s free va w (omega (arith, lv)) (all.each va (ground arith)) in
    let (u, q', rest) =
      unmap_loop-Unmapped e root t (page_of root s va ∷ free) n (va + page_size) one.space
        (omega (arith, av)) (omega (arith, lv))
        (later-AllOwned e root s t free va n av lv all one) in
    (u, rw (unmap_loop, q) q', more-Unmapped e root s t free va n av lv all one u rest)

-- `uvmunmap` with `do_free`, of whole pages in a range that ends at MAXVA at the latest, that are mapped each to a page of its own, which is neither free nor
-- a table, succeeds: afterwards no address of the range is mapped, every other keeps its entry, and the
-- free pages are those from before and the pages of the range.
pub uvmunmap-Unmapped :
    (e root : ℕ) (s : Kmem) (free : List ℕ) (va n : ℕ)
    → Space e root s free
    → va % page_size ≡ 0
    → va + n * page_size ≤ max_va
    → AllOwned e root s free va n
    → (t : Kmem) × (uvmunmap e root va n true s ≡ ok t) × Unmapped e root s free va n t
unfolding uvmunmap
uvmunmap-Unmapped e root s free va n w av lv all =
    let aligned : (va % page_size != 0) ≡ false = ground (arith, av) in
    let (t, q, x) = unmap_loop-Unmapped e root s free n va w av lv all in
    let rounds : unmap_rounds va n ≡ n = omega (arith, lv) in
    (t, rw (uvmunmap, aligned, rounds) q, x)
