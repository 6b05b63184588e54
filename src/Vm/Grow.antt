-- ===== src/Vm/Grow.antt =====
-- How the tables change when an entry is written.
use csklub_os.Base.{
  ℕ, zero, suc, ◌+◌, ◌*◌, ◌/◌, ◌%◌, ◌^◌, ◌≤◌, ◌<◌, ◌≡◌, ◌≢◌, ◌⊎◌, inl, inr, refl, sym, ◌∙◌, ap,
  arith, List, some, ◌==◌, if◌then◌else◌, Option-cases, ℕ_discrete, eq→==, ne→==,
}
use csklub_os.Memory.{Memory, read64, write64, read64-write64, read64-agree, write64-outside}
use csklub_os.Vm.{max_va}
use csklub_os.Vm.Tree.{
  index, index-small, slot, child, node, leaf, IsTree, prefix-split, node-prefix, node-suc,
  node-none, leaf-some, leaf-none, slot-apart,
}

-- One aligned word has changed.
pub record Written (m m' : Memory) (at v : ℕ) : Type 0 where
  pub here : read64 m' at ≡ v
  pub elsewhere : (a : ℕ) → a % 8 ≡ 0 → a ≢ at → read64 m' a ≡ read64 m a

pub write64-Written :
    (m : Memory) (at v : ℕ) → at % 8 ≡ 0 → v < 2 ^ 64 → Written m (write64 m at v) at v
write64-Written m at v al lt = record {
  here = read64-write64 m at v lt;
  elsewhere = λ a al' ne.
      read64-agree (write64 m at v) m a
        (λ k small. write64-outside m at v (a + k) (omega (arith, al, al', ne, small)));
}

-- The same tables, if the entries of the upper ones are the same.
pub same-node :
    (m m' : Memory) (root : ℕ)
    → ((d va p : ℕ)
        → d < 2
        → va < max_va
        → node m root d va ≡ some p
        → read64 m' (slot d va p) ≡ read64 m (slot d va p))
    → (e va : ℕ) → e < 3
    → va < max_va
    → node m' root e va ≡ node m root e va
unfolding node
same-node m m' root h zero va lt la = refl
same-node m m' root h (suc e) va lt la = elim (Option-cases (node m root e va)) [
  | inl lost ↦
      node-none m' root e va (same-node m m' root h e va (omega (arith, lt)) la ∙ lost)
      ∙ sym (node-none m root e va lost)
  | inr (p, found) ↦
      node-suc m' root e va p (same-node m m' root h e va (omega (arith, lt)) la ∙ found)
      ∙ ap child (h e va p (omega (arith, lt)) la found)
      ∙ sym (node-suc m root e va p found)
]

pub same-IsTree :
    (m m' : Memory) (root : ℕ) (free : List ℕ)
    → ((e va : ℕ) → e < 3 → va < max_va → node m' root e va ≡ node m root e va)
    → IsTree m root free
    → IsTree m' root free
same-IsTree m m' root free same t = record {
  aligned = λ d va p lt la h. t.aligned d va p lt la (sym (same d va lt la) ∙ h);
  apart = λ d e va vb p ld le la lb h h'.
      t.apart d e va vb p ld le la lb (sym (same d va ld la) ∙ h) (sym (same e vb le lb) ∙ h');
  taken = λ d va p lt la h. t.taken d va p lt la (sym (same d va lt la) ∙ h);
}

-- The entry for one page of addresses is written: the tables stay, and so do the other entries.
pub leaf-Written :
    (m m' : Memory) (root : ℕ) (free : List ℕ) (va p v : ℕ)
    → IsTree m root free
    → va < max_va
    → node m root 2 va ≡ some p
    → Written m m' (slot 2 va p) v
    → ((e vb : ℕ) → e < 3 → vb < max_va → node m' root e vb ≡ node m root e vb)
      × ((vb : ℕ)
          → vb < max_va
          → leaf m' root vb ≡ (if vb / 4096 == va / 4096 then v else leaf m root vb))
leaf-Written m m' root free va p v t la hp w = (same, each)
  where
    same : (e vb : ℕ) → e < 3 → vb < max_va → node m' root e vb ≡ node m root e vb
    same = same-node m m' root (λ d vb q lt lb hq.
        w.elsewhere (slot d vb q) (omega (arith, t.aligned d vb q (omega (arith, lt)) lb hq)) (λ z.
          let (de, _) =
            slot-apart m root free d 2 vb va q p t (omega (arith, lt)) (omega arith) lb la hq hp
              z in
          absurd (omega (arith, de, lt))))

    each :
        (vb : ℕ)
        → vb < max_va
        → leaf m' root vb ≡ (if vb / 4096 == va / 4096 then v else leaf m root vb)
    each vb lb = elim (ℕ_discrete (vb / 4096) (va / 4096)) [
      | yes page ↦
          let (up, idx) = prefix-split 2 vb va page (omega arith) in
          let hq : node m root 2 vb ≡ some p = node-prefix m root 2 vb va (omega arith) up ∙ hp in
          rw (eq→== (vb / 4096) (va / 4096) page) (
            leaf-some m' root vb p (same 2 vb (omega arith) lb ∙ hq)
            ∙ ap (read64 m') (omega (arith, idx))
            ∙ w.here)
      | no other ↦
          rw (ne→== (vb / 4096) (va / 4096) other) (elim (Option-cases (node m root 2 vb)) [
            | inl lost ↦
                leaf-none m' root vb (same 2 vb (omega arith) lb ∙ lost)
                ∙ sym (leaf-none m root vb lost)
            | inr (q, hq) ↦
                leaf-some m' root vb q (same 2 vb (omega arith) lb ∙ hq)
                ∙ w.elsewhere (slot 2 vb q) (omega (arith, t.aligned 2 vb q (omega arith) lb hq))
                    (λ z.
                      let (_, page) =
                        slot-apart m root free 2 2 vb va q p t (omega arith) (omega arith) lb la hq
                          hp z in
                      other page)
                ∙ sym (leaf-some m root vb q hq)
          ])
    ]

-- An entry `at` has come to point to the page `q`, a table with no valid entry.
pub record Grown (m m' : Memory) (at q : ℕ) : Type 0 where
  pub here : child (read64 m' at) ≡ some q
  pub fresh : (i : ℕ) → i < 512 → read64 m' (q + 8 * i) ≡ 0
  pub elsewhere : (a : ℕ) → a % 8 ≡ 0 → a ≢ at → (a < q) ⊎ (q + 4096 ≤ a) → read64 m' a ≡ read64 m a

-- The same tables, if their bytes are the same.
pub bytes-node :
    (m m' : Memory) (root : ℕ)
    → ((d vb p k : ℕ)
        → d < 3
        → vb < max_va
        → node m root d vb ≡ some p
        → k < 4096
        → m' (p + k) ≡ m (p + k))
    → ((d vb : ℕ) → d < 3 → vb < max_va → node m' root d vb ≡ node m root d vb)
      × ((vb : ℕ) → vb < max_va → leaf m' root vb ≡ leaf m root vb)
bytes-node m m' root same = (nodes, leaves)
  where
    word :
        (d vb p : ℕ)
        → d < 3
        → vb < max_va
        → node m root d vb ≡ some p
        → read64 m' (slot d vb p) ≡ read64 m (slot d vb p)
    word d vb p ld lb hp = read64-agree m' m (slot d vb p) (λ k lt.
        let e : slot d vb p + k ≡ p + (8 * index d vb + k) = omega arith in
        ap m' e
        ∙ same d vb p (8 * index d vb + k) ld lb hp (omega (arith, lt, index-small d vb))
        ∙ ap m (sym e))

    nodes : (d vb : ℕ) → d < 3 → vb < max_va → node m' root d vb ≡ node m root d vb
    nodes = same-node m m' root (λ d vb p ld lb hp. word d vb p (omega (arith, ld)) lb hp)

    leaves : (vb : ℕ) → vb < max_va → leaf m' root vb ≡ leaf m root vb
    leaves vb lb = elim (Option-cases (node m root 2 vb)) [
      | inl lost ↦
          leaf-none m' root vb (nodes 2 vb (omega arith) lb ∙ lost) ∙ sym (leaf-none m root vb lost)
      | inr (p, hp) ↦
          leaf-some m' root vb p (nodes 2 vb (omega arith) lb ∙ hp)
          ∙ word 2 vb p (omega arith) lb hp
          ∙ sym (leaf-some m root vb p hp)
    ]
