-- ===== src/Vm/Tests.antt =====
-- A page table in which one page, at address 0, is mapped. No page is free.
use csklub_os.Base.{
  Option-cases, ℕ, zero, suc, ◌+◌, ◌-◌, ◌*◌, ◌/◌, ◌%◌, ◌≤◌, ◌<◌, ◌≡◌, ◌≢◌, inl, inr, refl, sym, ◌∙◌,
  ap, subst, arith, Bool, true, [], mem, some, ok, ◌==◌, ℕ_discrete,
}
use csklub_os.Memory.{Memory, read64, write64, read_bytes, write_bytes, store, IsBytes}
use csklub_os.Kalloc.{Kmem, phys_top}
use csklub_os.Vm.{max_va, mappages, uvmunmap}
use csklub_os.Vm.Tree.{
  index, prefix, slot, child, node, leaf, index-small, node-suc, node-none, leaf-some, leaf-none,
  leaf-page,
}
use csklub_os.Vm.Grow.{write64-Written}
use csklub_os.Vm.Descend.{Space}
use csklub_os.Vm.Map.{Mapped, mappages-Mapped}
use csklub_os.Vm.Unmap.{Owned, page_of}
use csklub_os.Vm.Free.{Unmapped, uvmunmap-Unmapped}
use csklub_os.Vm.Copy.{copyin}
use csklub_os.Vm.Copy.Target.{target, CopiedOut}
use csklub_os.Vm.Copy.Out.{copyout-CopiedOut}
use csklub_os.Vm.Copy.{copyout}
use csklub_os.Vm.Copy.Address.{phys}
use csklub_os.Kalloc.Chain.{IsPage}
use csklub_os.Vm.{is_valid, pte_flags, pte2pa}
use csklub_os.Memory.{write64-IsBytes}
use csklub_os.Base.{ltb}
use csklub_os.Vm.Copy.In.{Copied, copyin-Copied}

-- The entries: two for tables, and one for a page that the user may read and write.
abbrev user_pte : ℕ
user_pte = (phys_top - 4096) / 4 + 23

abbrev empty : Memory
empty = λ a. 0

abbrev upper : Memory
upper = write64 empty 4096 2049

abbrev middle : Memory
middle = write64 upper 8192 3073

abbrev tables : Memory
tables = write64 middle 12288 user_pte

read64-empty : (a : ℕ) → read64 empty a ≡ 0
unfolding read64 read_bytes
read64-empty a = refl

-- Every other word is 0.
read64-tables : (a : ℕ) → a % 8 ≡ 0 → a ≢ 4096 → a ≢ 8192 → a ≢ 12288 → read64 tables a ≡ 0
read64-tables a al n1 n2 n3 =
    (write64-Written middle 12288 user_pte refl (omega arith)).elsewhere a al n3
    ∙ (write64-Written upper 8192 3073 refl (omega arith)).elsewhere a al n2
    ∙ (write64-Written empty 4096 2049 refl (omega arith)).elsewhere a al n1
    ∙ read64-empty a

root_entry : child (read64 tables 4096) ≡ some 8192
unfolding read64 read_bytes write64 write_bytes store
root_entry = refl

middle_entry : child (read64 tables 8192) ≡ some 12288
unfolding read64 read_bytes write64 write_bytes store
middle_entry = refl

last_entry : read64 tables 12288 ≡ user_pte
unfolding read64 read_bytes write64 write_bytes store
last_entry = refl

-- The table at each depth, and whose it is.
abbrev Place : ℕ → ℕ → ℕ → Type 0
Place d va p = (p ≡ 4096 * (d + 1)) × (prefix d va ≡ 0)

-- An entry that points to a table is the first one of its own.
only_first :
    (d va p q at : ℕ)
    → d < 2
    → at ≡ 4096 * (d + 1)
    → child (read64 tables at) ≡ some q
    → child (read64 tables (slot d va at)) ≡ some p
    → (p ≡ q) × (index d va ≡ 0)
only_first d va p q at ld here first h = elim (ℕ_discrete (index d va) 0) [
  | yes z ↦
      let same : slot d va at ≡ at = omega (arith, z) in
      let e : some q ≡ some p = sym first ∙ ap (λ a. child (read64 tables a)) (sym same) ∙ h in
      let f : q ≡ p = cc e in (sym f, z)
  | no nz ↦
      let small = index-small d va in
      let zero_entry : read64 tables (slot d va at) ≡ 0 =
        read64-tables (slot d va at) (omega (arith, here)) (omega (arith, here, nz, small, ld))
          (omega (arith, here, nz, small, ld)) (omega (arith, here, nz, small, ld)) in
      absurd (cc (ap child (sym zero_entry) ∙ h))
]

below :
    (d va p : ℕ)
    → d < 2
    → va < max_va
    → prefix d va ≡ 0
    → child (read64 tables (slot d va (4096 * (d + 1)))) ≡ some p
    → Place (suc d) va p
below zero va p ld la pre h =
    let (e, z) = only_first 0 va p 8192 4096 ld refl root_entry h in (e, omega (arith, z, la))
below (suc zero) va p ld la pre h =
    let (e, z) = only_first 1 va p 12288 8192 ld refl middle_entry h in (e, omega (arith, z, pre))
below (suc (suc d)) va p ld la pre h = absurd (omega (arith, ld))

tables-Place : (d va p : ℕ) → d < 3 → va < max_va → node tables 4096 d va ≡ some p → Place d va p
unfolding node
tables-Place zero va p ld la h = let e : 4096 ≡ p = cc h in (omega (arith, e), refl)
tables-Place (suc d) va p ld la h = elim (Option-cases (node tables 4096 d va)) [
  | inl lost ↦ absurd (cc (sym (node-none tables 4096 d va lost) ∙ h))
  | inr (q, hq) ↦
      let (e, pre) = tables-Place d va q (omega (arith, ld)) la hq in
      below d va p (omega (arith, ld)) la pre (
        ap (λ x. child (read64 tables (slot d va x))) (sym e)
        ∙ sym (node-suc tables 4096 d va q hq)
        ∙ h)
]

abbrev start : Kmem
start = record { memory = tables; freelist = 0 }

start-Space : Space 0 4096 start []
unfolding mem
start-Space = record {
  chain = refl;
  tree = record {
    aligned = λ d va p ld la h. omega (arith, (tables-Place d va p ld la h).0);
    apart = λ d e va vb p ld le la lb h h'.
        let (pd, za) = tables-Place d va p ld la h in
        let (pe, zb) = tables-Place e vb p le lb h' in
        let de : d ≡ e = omega (arith, pd, pe) in
        (de, za ∙ sym (subst (λ x. prefix x vb ≡ 0) (sym de) zb));
    taken = λ d va p ld la h. refl;
  };
}

first_leaf : leaf tables 4096 0 ≡ user_pte
unfolding node
first_leaf =
    leaf-some tables 4096 0 12288 (
      node-suc tables 4096 1 0 8192 (node-suc tables 4096 0 0 4096 refl ∙ root_entry)
      ∙ middle_entry)
    ∙ last_entry

-- Only the first page is mapped.
other_leaf : (va : ℕ) → va < max_va → 4096 ≤ va → leaf tables 4096 va ≡ 0
other_leaf va la far = elim (Option-cases (node tables 4096 2 va)) [
  | inl lost ↦ leaf-none tables 4096 va lost
  | inr (p, hp) ↦
      let (e, pre) = tables-Place 2 va p (omega arith) la hp in
      let small = index-small 2 va in
      leaf-some tables 4096 va p hp
      ∙ read64-tables (slot 2 va p) (omega (arith, e)) (omega (arith, e)) (omega (arith, e))
          (omega (arith, e, pre, far))
]

mappages-Mapped_example :
    (r : Bool × Kmem) × (mappages 4096 8192 8192 (phys_top - 8192) 23 start ≡ ok r)
    × Mapped 0 4096 start 8192 8192 (phys_top - 8192) 23 r
mappages-Mapped_example =
    mappages-Mapped 0 4096 start [] 8192 8192 (phys_top - 8192) 23 start-Space refl refl
      (omega arith) refl (omega arith) (omega arith) (omega arith)
      (λ vb lo hi. ap (λ y. y % 2 == 1) (other_leaf vb (omega (arith, hi)) (omega (arith, lo))))

page_leaf : (va : ℕ) → va < 4096 → leaf tables 4096 va ≡ user_pte
page_leaf va lt = leaf-page tables 4096 va 0 (omega (arith, lt)) ∙ first_leaf

page-Owned : (va : ℕ) → va < 4096 → Owned 0 4096 start [] va
unfolding mem
page-Owned va lt =
    let e = page_leaf va lt in
    let page : page_of 4096 start va ≡ phys_top - 4096 = ap (λ y. pte2pa y) e in
    record {
      valid = ap (λ y. is_valid y) e;
      a_leaf = λ z. absurd (omega (arith, ap (λ y. pte_flags y) (sym e) ∙ z));
      page = subst (IsPage 0) (sym page) (omega arith);
      unfree = refl;
      no_table =
          λ d vb p ld lb h z. absurd (omega (arith, (tables-Place d vb p ld lb h).0, ld, z ∙ page));
    }

uvmunmap-Unmapped_example :
    (t : Kmem) × (uvmunmap 0 4096 0 1 true start ≡ ok t) × Unmapped 0 4096 start [] 0 1 t
uvmunmap-Unmapped_example =
    uvmunmap-Unmapped 0 4096 start [] 0 1 start-Space refl (omega arith) (record {
      each = λ vb h. page-Owned vb (ground (arith, h));
      apart = λ vb vc h h' z. ground (arith, h, h');
    })

tables-IsBytes : IsBytes tables
tables-IsBytes =
    write64-IsBytes middle 12288 user_pte
      (write64-IsBytes upper 8192 3073 (write64-IsBytes empty 4096 2049 (λ a. omega arith)))

first_phys : (va : ℕ) → va < 4096 → phys 4096 tables va ≡ phys_top - 4096
first_phys va lt =
    let inside : ltb va max_va ≡ true = ground (arith, lt) in rw (inside, page_leaf va lt) refl

copyin-Copied_example :
    (r : Bool × Kmem) × (copyin 9 4096 16384 5 8 start ≡ some r) × Copied 4096 tables 16384 5 8 r
copyin-Copied_example = copyin-Copied 9 4096 16384 5 8 start (omega arith) tables-IsBytes (record {
  tables = λ d vb p ld lb h. inr (omega (arith, (tables-Place d vb p ld lb h).0, ld));
  sources = λ i j li lj mapped z.
      absurd (omega (arith, z, li, lj, first_phys (5 + i) (omega (arith, li))));
})

first_target : (va : ℕ) → va < 4096 → target 4096 tables va ≡ some (phys_top - 4096 + va)
first_target va lt =
    let inside : ltb va max_va ≡ true = ground (arith, lt) in
    rw (inside, page_leaf va lt) (ap some (omega (arith, lt)))

found-address :
    (i a : ℕ) → i < 8 → target 4096 tables (5 + i) ≡ some a → a ≡ phys_top - 4096 + (5 + i)
found-address i a lt h = cc (sym h ∙ first_target (5 + i) (omega (arith, lt)))

copyout-CopiedOut_example :
    (r : Bool × Kmem) × (copyout 9 4096 5 16384 8 start ≡ some r)
    × CopiedOut 4096 tables 5 16384 8 r
copyout-CopiedOut_example =
    copyout-CopiedOut 9 4096 5 16384 8 start (omega arith) tables-IsBytes (record {
      tables = λ i a d vb p lt h ld lb hp.
          inr (omega (arith, found-address i a lt h, (tables-Place d vb p ld lb hp).0, ld));
      sources = λ i j a li lj h z. absurd (omega (arith, found-address i a li h, z, li, lj));
      distinct = λ i j a li lj h h'. omega (arith, found-address i a li h, found-address j a lj h');
    })
