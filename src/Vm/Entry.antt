-- ===== src/Vm/Entry.antt =====
-- The entry for one page is written, by a round of the loop of `mappages`.
use csklub_os.Base.{
  ℕ, ◌/◌, ◌^◌, ◌<◌, ◌≡◌, refl, sym, ◌∙◌, ap, subst, arith, Bool, true, false, List, [], Option,
  none, some, ok, ◌==◌, if◌then◌else◌,
}
use csklub_os.Memory.{read64}
use csklub_os.Kalloc.{Kmem}
use csklub_os.Kalloc.Chain.{Chain-agree}
use csklub_os.Memory.{write64, write64-outside}
use csklub_os.Vm.{max_va, is_valid, make_pte, walk, set64, map_page}
use csklub_os.Vm.Tree.{slot, node, leaf, index-small, leaf-some}
use csklub_os.Vm.Grow.{write64-Written, same-IsTree, leaf-Written}
use csklub_os.Vm.Descend.{Space}
use csklub_os.Vm.Walk.{Reached, walk-Reached}

pub make_pte-small : (pa perm : ℕ) → pa < 2 ^ 64 → perm < 2 ^ 10 → make_pte pa perm < 2 ^ 64
unfolding make_pte
make_pte-small pa perm h k = ground (arith, h, k)

-- Writing the entry for a page.
pub set64-Space :
    (e root : ℕ) (s : Kmem) (free : List ℕ) (va p v : ℕ)
    → Space e root s free
    → va < max_va
    → node s.memory root 2 va ≡ some p
    → v < 2 ^ 64
    → Space e root (set64 (slot 2 va p) v s) free
      × ((d vb : ℕ)
          → d < 3
          → vb < max_va
          → node (set64 (slot 2 va p) v s).memory root d vb ≡ node s.memory root d vb)
      × ((vb : ℕ)
          → vb < max_va
          → leaf (set64 (slot 2 va p) v s).memory root vb
            ≡ (if vb / 4096 == va / 4096 then v else leaf s.memory root vb))
set64-Space e root s free va p v w la hp small =
    let al = w.tree.aligned 2 va p (omega arith) la hp in
    let idx = index-small 2 va in
    let (same, each) =
      leaf-Written s.memory (write64 s.memory (slot 2 va p) v) root free va p v w.tree la hp
        (write64-Written s.memory (slot 2 va p) v (omega (arith, al)) small) in
    (
      record {
        chain =
            Chain-agree e s.memory (write64 s.memory (slot 2 va p) v) p s.freelist free al
              (λ a o. sym (write64-outside s.memory (slot 2 va p) v a (omega (arith, o, idx))))
              (w.tree.taken 2 va p (omega arith) la hp) w.chain;
        tree = same-IsTree s.memory (write64 s.memory (slot 2 va p) v) root free same w.tree;
      },
      same,
      each,
    )

-- What one page's mapping comes to.
pub record Mapped1 (e root : ℕ) (s : Kmem) (va pte : ℕ) (r : Bool × Kmem) : Type 0 where
  pub free : List ℕ
  pub space : Space e root r.1 free
  pub done :
      r.0 ≡ true
      → (vb : ℕ) → vb < max_va
      → leaf r.1.memory root vb ≡ (if vb / 4096 == va / 4096 then pte else leaf s.memory root vb)
  pub short :
      r.0 ≡ false
      → (free ≡ []) × ((vb : ℕ) → vb < max_va → leaf r.1.memory root vb ≡ leaf s.memory root vb)

-- What `map_page` makes of the result of `walk`.
map-Reached :
    (e root : ℕ) (s : Kmem) (va pa perm : ℕ) (r : Option ℕ × Kmem)
    → va < max_va
    → pa < 2 ^ 64
    → perm < 2 ^ 10
    → is_valid (leaf s.memory root va) ≡ false
    → walk true root va s ≡ ok r
    → Reached e root s va r
    → (b : Bool × Kmem) × (map_page root va pa perm s ≡ ok b)
      × Mapped1 e root s va (make_pte pa perm) b
unfolding map_page
map-Reached e root s va pa perm (none, t) la lp small empty q x = (
  (false, t),
  rw (map_page, q) refl,
  record {
    free = x.free;
    space = x.space;
    done = λ h. absurd (cc h);
    short = λ h. (x.full refl, x.leaves);
  },
)
map-Reached e root s va pa perm (some at, t) la lp small empty q x =
    let (p, hp, here) = x.there at refl in
    let pte : read64 t.memory at ≡ leaf s.memory root va =
      ap (read64 t.memory) here ∙ sym (leaf-some t.memory root va p hp) ∙ x.leaves va la in
    let free_entry : is_valid (read64 t.memory at) ≡ false = ap (λ v. is_valid v) pte ∙ empty in
    let v : ℕ = make_pte pa perm in
    let (space, nodes, each) =
      set64-Space e root t x.free va p v x.space la hp (make_pte-small pa perm lp small) in
    (
      (true, set64 at v t),
      rw (map_page, q, free_entry) refl,
      subst (λ a. Mapped1 e root s va v (true, set64 a v t)) (sym here)
          (record {
            free = x.free;
            space = space;
            done = λ h vb lb.
                each vb lb ∙ ap (λ y. if vb / 4096 == va / 4096 then v else y) (x.leaves vb lb);
            short = λ h. absurd (cc h);
          }),
    )

pub map_page-Mapped1 :
    (e root : ℕ) (s : Kmem) (free : List ℕ) (va pa perm : ℕ)
    → Space e root s free
    → va < max_va
    → pa < 2 ^ 64
    → perm < 2 ^ 10
    → is_valid (leaf s.memory root va) ≡ false
    → (r : Bool × Kmem) × (map_page root va pa perm s ≡ ok r)
      × Mapped1 e root s va (make_pte pa perm) r
map_page-Mapped1 e root s free va pa perm w la lp small empty =
    let (r, q, x) = walk-Reached e root s free va w la in
    map-Reached e root s va pa perm r la lp small empty q x
