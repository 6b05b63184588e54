-- ===== src/Vm/NewTable.antt =====
-- A new table below an entry that was not valid.
use csklub_os.Base.{
  ℕ, zero, suc, ◌+◌, ◌*◌, ◌%◌, ◌<◌, ◌≡◌, ◌≢◌, ◌⊎◌, inl, inr, refl, sym, ◌∙◌, ap, subst, arith,
  false, List, ◌∷◌, mem, none, some, Option-cases, ℕ_discrete,
}
use csklub_os.Memory.{Memory, read64}
use csklub_os.Vm.{max_va}
use csklub_os.Vm.Tree.{
  index, prefix, slot, child, node, leaf, IsTree, index-small, prefix-split, node-prefix, node-suc,
  node-none, leaf-some, leaf-none, slot-apart,
}
use csklub_os.Vm.Grow.{Grown}

module _ (m m' : Memory) (root : ℕ) (free : List ℕ) (d va p q : ℕ) (t : IsTree m root (q ∷ free))
    (ld : d < 2) (la : va < max_va) (hp : node m root d va ≡ some p)
    (empty : child (read64 m (slot d va p)) ≡ none) (page : q % 4096 ≡ 0)
    (g : Grown m m' (slot d va p) q) where
  not_new : (e vb r : ℕ) → e < 3 → vb < max_va → node m root e vb ≡ some r → r ≢ q
  unfolding mem
  not_new e vb r le lb hr z =
      let lost : mem q (q ∷ free) ≡ false =
        subst (λ x. mem x (q ∷ free) ≡ false) z (t.taken e vb r le lb hr) in
      absurd (ground (arith, lost))

  before :
      (vb : ℕ)
      → prefix (suc d) vb ≡ prefix (suc d) va
      → (node m root d vb ≡ some p) × (node m root (suc d) vb ≡ none)
  before vb pre =
      let (up, idx) = prefix-split d vb va pre (omega (arith, ld)) in
      let at_p = node-prefix m root d vb va (omega (arith, ld)) up ∙ hp in
      (at_p, node-suc m root d vb p at_p ∙ ap (λ i. child (read64 m (p + 8 * i))) idx ∙ empty)

  -- An old entry of a table that is not the changed one.
  old_entry :
      (e vb r : ℕ)
      → e < 3
      → vb < max_va
      → node m root e vb ≡ some r
      → ((e ≡ d) → prefix (suc d) vb ≢ prefix (suc d) va)
      → read64 m' (slot e vb r) ≡ read64 m (slot e vb r)
  old_entry e vb r le lb hr other =
      let small = index-small e vb in
      let al = t.aligned e vb r le lb hr in
      g.elsewhere (slot e vb r) (omega (arith, al))
        (λ z.
          let (ed, pre) =
            slot-apart m root (q ∷ free) e d vb va r p t le (omega (arith, ld)) lb la hr hp z in
          other ed (subst (λ x. prefix (suc x) vb ≡ prefix (suc x) va) ed pre))
        (omega (arith, al, page, small, not_new e vb r le lb hr))

  -- What an address comes to at the depth: the new table where there was none, or what it came to.
  abbrev pub Comes : ℕ → ℕ → Type 0
  Comes e vb =
      (((e ≡ suc d) × (prefix (suc d) vb ≡ prefix (suc d) va))
        × (node m' root e vb ≡ some q)
        × (node m root e vb ≡ none))
      ⊎ ((e ≡ suc d → prefix (suc d) vb ≢ prefix (suc d) va)
          × (node m' root e vb ≡ node m root e vb))

  below_new :
      (e vb : ℕ)
      → e ≡ suc d
      → node m' root e vb ≡ some q
      → node m root e vb ≡ none
      → Comes (suc e) vb
  below_new e vb ed new old = inr (
    (λ z. absurd (omega (arith, z, ed))),
    node-suc m' root e vb q new
        ∙ ap child (g.fresh (index e vb) (index-small e vb))
        ∙ sym (node-none m root e vb old),
  )

  changed :
      (vb r : ℕ)
      → vb < max_va
      → node m' root d vb ≡ node m root d vb
      → node m root d vb ≡ some r
      → prefix (suc d) vb ≡ prefix (suc d) va
      → Comes (suc d) vb
  changed vb r lb same hr pre =
      let (up, idx) = prefix-split d vb va pre (omega (arith, ld)) in
      let (at_p, old) = before vb pre in
      inl (
        (refl, pre),
        node-suc m' root d vb p (same ∙ at_p)
            ∙ ap (λ i. child (read64 m' (p + 8 * i))) idx
            ∙ g.here,
        old,
      )

  kept :
      (e vb r : ℕ)
      → e < 3
      → vb < max_va
      → node m' root e vb ≡ node m root e vb
      → node m root e vb ≡ some r
      → (e ≡ d → prefix (suc d) vb ≢ prefix (suc d) va)
      → Comes (suc e) vb
  kept e vb r le lb same hr other = inr (
    (λ z. other (omega (arith, z))),
    node-suc m' root e vb r (same ∙ hr)
        ∙ ap child (old_entry e vb r le lb hr other)
        ∙ sym (node-suc m root e vb r hr),
  )

  pub new-node : (e vb : ℕ) → e < 3 → vb < max_va → Comes e vb
  unfolding node
  new-node zero vb le lb = inr ((λ z. absurd (omega (arith, z))), refl)
  new-node (suc e) vb le lb = elim (new-node e vb (omega (arith, le)) lb) [
    | inl ((ed, pre), new, old) ↦ below_new e vb ed new old
    | inr (above, same) ↦ elim (Option-cases (node m root e vb)) [
      | inl lost ↦ inr (
        (λ z pre.
            let ed : d ≡ e = omega (arith, z) in
            let here = subst (λ x. node m root x vb ≡ some p) ed (before vb pre).0 in
            absurd (cc (sym lost ∙ here))),
        node-none m' root e vb (same ∙ lost) ∙ sym (node-none m root e vb lost),
      )
      | inr (r, hr) ↦ elim (ℕ_discrete e d) [
        | no ne ↦ kept e vb r (omega (arith, le)) lb same hr (λ z. absurd (ne z))
        | yes ed ↦ elim (ℕ_discrete (prefix (suc d) vb) (prefix (suc d) va)) [
          | no apart ↦ kept e vb r (omega (arith, le)) lb same hr (λ z. apart)
          | yes pre ↦
              subst
                (λ x.
                  node m' root x vb ≡ node m root x vb
                  → node m root x vb ≡ some r
                  → Comes (suc x) vb)
                (sym ed) (λ u v. changed vb r lb u v pre) same hr
        ]
      ]
    ]
  ]

  pub grown-leaf : (vb : ℕ) → vb < max_va → leaf m' root vb ≡ leaf m root vb
  grown-leaf vb lb = elim (new-node 2 vb (omega arith) lb) [
    | inl (b, new, old) ↦
        leaf-some m' root vb q new
        ∙ g.fresh (index 2 vb) (index-small 2 vb)
        ∙ sym (leaf-none m root vb old)
    | inr (above, same) ↦ elim (Option-cases (node m root 2 vb)) [
      | inl lost ↦ leaf-none m' root vb (same ∙ lost) ∙ sym (leaf-none m root vb lost)
      | inr (r, hr) ↦
          leaf-some m' root vb r (same ∙ hr)
          ∙ old_entry 2 vb r (omega arith) lb hr (λ z. absurd (omega (arith, z, ld)))
          ∙ sym (leaf-some m root vb r hr)
    ]
  ]

  pub grown-next : node m' root (suc d) va ≡ some q
  grown-next = elim (new-node (suc d) va (omega (arith, ld)) la) [
    | inl (b, new, old) ↦ new
    | inr (above, same) ↦ absurd (above refl refl)
  ]

  -- A table after the change is an old one or the new one.
  from :
      (e vb r : ℕ)
      → e < 3
      → vb < max_va
      → node m' root e vb ≡ some r
      → ((node m root e vb ≡ some r) × (r ≢ q))
        ⊎ ((r ≡ q) × (e ≡ suc d) × (prefix (suc d) vb ≡ prefix (suc d) va))
  from e vb r le lb hr = elim (new-node e vb le lb) [
    | inl ((ed, pre), new, old) ↦ let z : q ≡ r = cc (sym new ∙ hr) in inr (sym z, ed, pre)
    | inr (above, same) ↦
        let old : node m root e vb ≡ some r = sym same ∙ hr in inl (old, not_new e vb r le lb old)
  ]

  pub grown-IsTree : mem q free ≡ false → IsTree m' root free
  unfolding mem
  grown-IsTree once = record {
    aligned = λ e vb r le lb hr. elim (from e vb r le lb hr) [
      | inl (old, ne) ↦ t.aligned e vb r le lb old
      | inr (z, _, _) ↦ omega (arith, z, page)
    ];
    apart = λ e f vb vc r le lf lb lc hr hs. elim (from e vb r le lb hr) [
      | inl (old, ne) ↦ elim (from f vc r lf lc hs) [
        | inl (older, _) ↦ t.apart e f vb vc r le lf lb lc old older
        | inr (z, _, _) ↦ absurd (ne z)
      ]
      | inr (z, ed, pre) ↦ elim (from f vc r lf lc hs) [
        | inl (older, ne) ↦ absurd (ne z)
        | inr (_, fd, pre') ↦
            (ed ∙ sym fd, subst (λ x. prefix x vb ≡ prefix x vc) (sym ed) (pre ∙ sym pre'))
      ]
    ];
    taken = λ e vb r le lb hr. elim (from e vb r le lb hr) [
      | inl (old, ne) ↦ ground (arith, t.taken e vb r le lb old)
      | inr (z, _, _) ↦ subst (λ x. mem x free ≡ false) (sym z) once
    ];
  }
