-- ===== src/Vm/Descend.antt =====
-- A round of the loop of `walk`, with a new table where it is needed.
use csklub_os.Base.{
  ℕ, suc, ◌+◌, ◌-◌, ◌*◌, ◌%◌, ◌≤◌, ◌<◌, ◌≡◌, ◌≢◌, ◌⊎◌, inl, inr, refl, sym, ◌∙◌, ap, subst, arith,
  true, false, List, [], ◌∷◌, mem, Option, none, some, Bool-cases, ne→==,
}
use csklub_os.Memory.{Memory, read64, write64, write64-outside, read64-agree, read_bytes}
use csklub_os.Str.{memset}
use csklub_os.Str.Move.{Outside, memset_lem}
use csklub_os.Kalloc.{Kmem, page_size}
use csklub_os.Kalloc.Chain.{Chain, IsPage, Chain-agree, kalloc-Chain}
use csklub_os.Vm.{px, max_va, pa2pte, pte2pa, is_valid, entry, descend}
use csklub_os.Vm.Tree.{index, slot, child, node, leaf, IsTree, index-small, node-suc}
use csklub_os.Vm.Grow.{Written, write64-Written, Grown}
use csklub_os.Vm.NewTable.{grown-leaf, grown-next, grown-IsTree}

-- The free pages, and the tables under a root.
pub record Space (kernel_end root : ℕ) (s : Kmem) (free : List ℕ) : Type 0 where
  pub chain : Chain kernel_end s.memory s.freelist free
  pub tree : IsTree s.memory root free

-- Where a walk to a depth has come: with a table there, or without, for want of a free page. No entry
-- for a page has changed.
pub record Walked (kernel_end root : ℕ) (s : Kmem) (d va : ℕ) (r : Option ℕ × Kmem) : Type 0 where
  pub free : List ℕ
  pub space : Space kernel_end root r.1 free
  pub leaves : (vb : ℕ) → vb < max_va → leaf r.1.memory root vb ≡ leaf s.memory root vb
  pub there : (q : ℕ) → r.0 ≡ some q → node r.1.memory root d va ≡ some q
  pub full : r.0 ≡ none → free ≡ []

read64-zero : (a : ℕ) → read64 (λ b. 0) a ≡ 0
unfolding read64 read_bytes
read64-zero a = refl

-- A page that is cleared and that the entry `at` comes to point to.
new_table-Grown :
    (e : ℕ) (s t : Kmem) (at q : ℕ)
    → IsPage e q
    → at % 8 ≡ 0
    → (at < q) ⊎ (q + 4096 ≤ at)
    → ((a : ℕ) → Outside a q page_size → t.memory a ≡ s.memory a)
    → Grown s.memory (write64 (memset t.memory q 0 page_size) at (pa2pte q + 1)) at q
new_table-Grown e s t at q page al out same = record {
  here = ap child w.here ∙ ground (arith, page.aligned, page.high);
  fresh = λ i lt.
      w.elsewhere (q + 8 * i) (omega (arith, page.aligned)) (omega (arith, out, lt))
      ∙ zeros (q + 8 * i) (omega arith) (omega (arith, lt));
  elsewhere = λ a al' ne apart.
      w.elsewhere a al' ne
      ∙ read64-agree (memset t.memory q 0 page_size) s.memory a (λ k lt.
        let o : Outside (a + k) q page_size = omega (arith, apart, lt, al', page.aligned) in
        (memset_lem t.memory q 0 page_size).1 (a + k) o ∙ same (a + k) o);
}
  where
    w :
        Written
          (memset t.memory q 0 page_size)
          (write64 (memset t.memory q 0 page_size) at (pa2pte q + 1))
          at
          (pa2pte q + 1)
    w =
        write64-Written (memset t.memory q 0 page_size) at (pa2pte q + 1) al
          (omega (arith, page.high))

    zeros : (a : ℕ) → q ≤ a → a + 8 ≤ q + 4096 → read64 (memset t.memory q 0 page_size) a ≡ 0
    zeros a low high =
        read64-agree (memset t.memory q 0 page_size) (λ b. 0) a
          (λ k lt.
            ap (memset t.memory q 0 page_size) (omega (arith, low))
            ∙ (memset_lem t.memory q 0 page_size).0 (a + k - q) (omega (arith, low, high, lt)))
        ∙ read64-zero a

-- A new table at the next depth.
added :
    (e root : ℕ) (s t : Kmem) (free rest : List ℕ) (d l va p q : ℕ)
    → Space e root s free
    → d < 2
    → va < max_va
    → node s.memory root d va ≡ some p
    → px l va ≡ index d va
    → child (read64 s.memory (slot d va p)) ≡ none
    → free ≡ q ∷ rest
    → IsPage e q
    → mem q rest ≡ false
    → Chain e t.memory t.freelist rest
    → ((a : ℕ) → Outside a q page_size → t.memory a ≡ s.memory a)
    → Walked e root s (suc d) va (
      some q,
      record t { memory = write64 (memset t.memory q 0 page_size) (entry l va p) (pa2pte q + 1) },
    )
unfolding mem
added e root s t free rest d l va p q w ld la hp same empty pop page once chain kept =
    let tree : IsTree s.memory root (q ∷ rest) = subst (IsTree s.memory root) pop w.tree in
    let small = index-small d va in
    let al = tree.aligned d va p (omega (arith, ld)) la hp in
    let unfree = tree.taken d va p (omega (arith, ld)) la hp in
    let apart : p ≢ q = λ z. absurd (ground (arith, unfree, z)) in
    let busy : mem p rest ≡ false = ground (arith, unfree) in
    let at : ℕ = entry l va p in
    let m : Memory = write64 (memset t.memory q 0 page_size) at (pa2pte q + 1) in
    let g : Grown s.memory m (slot d va p) q =
      subst (λ i. Grown s.memory m (p + 8 * i) q) same
        (new_table-Grown e s t at q page (omega (arith, al))
          (omega (arith, al, page.aligned, apart, small, same)) kept) in
    record {
      free = rest;
      space = record {
        chain =
            Chain-agree e (memset t.memory q 0 page_size) m p t.freelist rest al
              (λ a o. sym (
                write64-outside (memset t.memory q 0 page_size) at (pa2pte q + 1) a
                  (omega (arith, o, small, same))))
              busy
              (Chain-agree e t.memory (memset t.memory q 0 page_size) q t.freelist rest page.aligned
                (λ a o. sym ((memset_lem t.memory q 0 page_size).1 a o)) once chain);
        tree = grown-IsTree s.memory m root rest d va p q tree ld la hp empty page.aligned g once;
      };
      leaves = grown-leaf s.memory m root rest d va p q tree ld la hp empty page.aligned g;
      there =
          λ r h. grown-next s.memory m root rest d va p q tree ld la hp empty page.aligned g ∙ h;
      full = λ h. absurd (cc h);
    }

-- A round of `walk` with `alloc`.
pub descended :
    (e root : ℕ) (s : Kmem) (free : List ℕ) (d l va p : ℕ)
    → Space e root s free
    → d < 2
    → va < max_va
    → node s.memory root d va ≡ some p
    → px l va ≡ index d va
    → Walked e root s (suc d) va (descend true l va p s)
unfolding descend
descended e root s free d l va p w ld la hp same =
    elim (Bool-cases (is_valid (read64 s.memory (entry l va p)))) [
      | inl valid ↦
          rw (descend, valid)
            (record {
              free = free;
              space = w;
              leaves = λ vb lb. refl;
              there = λ q h. node-suc s.memory root d va p hp ∙ valid_child valid ∙ h;
              full = λ h. absurd (cc h);
            })
      | inr invalid ↦ elim (kalloc-Chain e s free w.chain) [
        | inl (nothing, out) ↦
            rw (descend, invalid, out)
              (record {
                free = free;
                space = w;
                leaves = λ vb lb. refl;
                there = λ q h. absurd (cc h);
                full = λ h. nothing;
              })
        | inr (q, rest, t, pop, got, page, once, chain, filled, kept) ↦
            rw (descend, invalid, got, ne→== q 0 (λ z. absurd (omega (arith, z, page.not_null))))
              (added e root s t free rest d l va p q w ld la hp same (invalid_child invalid) pop
                page once chain kept)
      ]
    ]
  where
    valid_child :
        is_valid (read64 s.memory (entry l va p)) ≡ true
        → child (read64 s.memory (slot d va p)) ≡ some (pte2pa (read64 s.memory (entry l va p)))
    valid_child h = ap (λ i. child (read64 s.memory (p + 8 * i))) (sym same) ∙ rw h refl

    invalid_child :
        is_valid (read64 s.memory (entry l va p)) ≡ false
        → child (read64 s.memory (slot d va p)) ≡ none
    invalid_child h = ap (λ i. child (read64 s.memory (p + 8 * i))) (sym same) ∙ rw h refl
