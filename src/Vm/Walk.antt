-- ===== src/Vm/Walk.antt =====
-- `walk`, with and without new tables.
use csklub_os.Base.{
  ℕ, suc, ◌+◌, ◌*◌, ◌<◌, ◌≡◌, inl, inr, refl, sym, ◌∙◌, ap, arith, true, false, List, [], Option,
  none, some, ok, leb, Bool-cases,
}
use csklub_os.Memory.{read64}
use csklub_os.Kalloc.{Kmem}
use csklub_os.Vm.{px, max_va, is_valid, entry, descend, walk_levels, walk}
use csklub_os.Vm.Tree.{index, slot, child, node, leaf, node-suc, node-none}
use csklub_os.Vm.Descend.{Space, Walked, descended}

-- The address that `walk` ends with.
abbrev pub last_entry : ℕ → Option ℕ → Option ℕ
last_entry va o = elim o [ none ↦ none | some p ↦ some (slot 2 va p) ]

-- What `walk` with `alloc` comes to.
pub record Reached (kernel_end root : ℕ) (s : Kmem) (va : ℕ) (r : Option ℕ × Kmem) : Type 0 where
  pub free : List ℕ
  pub space : Space kernel_end root r.1 free
  pub leaves : (vb : ℕ) → vb < max_va → leaf r.1.memory root vb ≡ leaf s.memory root vb
  pub there :
      (at : ℕ) → r.0 ≡ some at → (p : ℕ) × (node r.1.memory root 2 va ≡ some p) × (at ≡ slot 2 va p)
  pub full : r.0 ≡ none → free ≡ []

not-Reached :
    (e root : ℕ) (s : Kmem) (d va : ℕ) (r : Option ℕ × Kmem)
    → Walked e root s d va r
    → r.0 ≡ none
    → Reached e root s va (none, r.1)
not-Reached e root s d va r w h = record {
  free = w.free;
  space = w.space;
  leaves = w.leaves;
  there = λ at z. absurd (cc z);
  full = λ z. w.full h;
}

last_level :
    (e root : ℕ) (s : Kmem) (va : ℕ) (r : Option ℕ × Kmem)
    → Walked e root s 2 va r
    → Reached e root s va
        (elim r.0 [ none ↦ (none, r.1) | some next ↦ walk_levels true 0 va next r.1 ])
unfolding walk_levels
last_level e root s va (none, t) w = not-Reached e root s 2 va (none, t) w refl
last_level e root s va (some p, t) w = record {
  free = w.free;
  space = w.space;
  leaves = w.leaves;
  there = λ at z. (p, w.there p refl, cc (sym z));
  full = λ z. absurd (cc z);
}

middle_level :
    (e root : ℕ) (s : Kmem) (va : ℕ) (r : Option ℕ × Kmem)
    → va < max_va
    → Walked e root s 1 va r
    → Reached e root s va
        (elim r.0 [ none ↦ (none, r.1) | some next ↦ walk_levels true 1 va next r.1 ])
unfolding walk_levels
middle_level e root s va (none, t) la w = not-Reached e root s 1 va (none, t) w refl
middle_level e root s va (some p, t) la w =
    let next = descended e root t w.free 1 1 va p w.space (omega arith) la (w.there p refl) refl in
    let end = last_level e root t va (descend true 1 va p t) next in
    record {
      free = end.free;
      space = end.space;
      leaves = λ vb lb. end.leaves vb lb ∙ w.leaves vb lb;
      there = end.there;
      full = end.full;
    }

-- `walk` with `alloc` comes to the entry for the page, unless no page is left for a table.
pub walk-Reached :
    (e root : ℕ) (s : Kmem) (free : List ℕ) (va : ℕ)
    → Space e root s free
    → va < max_va
    → (r : Option ℕ × Kmem) × (walk true root va s ≡ ok r) × Reached e root s va r
unfolding walk walk_levels node
walk-Reached e root s free va w la =
    let inside : leb max_va va ≡ false = ground (arith, la) in
    (
      walk_levels true 2 va root s,
      rw (walk, inside) refl,
      middle_level e root s va (descend true 2 va root s) la
          (descended e root s free 0 2 va root w (omega arith) la refl refl),
    )

descend-false :
    (d l va p : ℕ) (s : Kmem) (root : ℕ)
    → node s.memory root d va ≡ some p
    → px l va ≡ index d va
    → descend false l va p s ≡ (node s.memory root (suc d) va, s)
unfolding descend
descend-false d l va p s root hp same =
    let e : node s.memory root (suc d) va ≡ child (read64 s.memory (entry l va p)) =
      node-suc s.memory root d va p hp ∙ ap (λ i. child (read64 s.memory (p + 8 * i))) (sym same) in
    elim (Bool-cases (is_valid (read64 s.memory (entry l va p)))) [
      | inl valid ↦ rw (descend, valid) (ap (λ o. (o, s)) (sym (e ∙ rw valid refl)))
      | inr invalid ↦ rw (descend, invalid) (ap (λ o. (o, s)) (sym (e ∙ rw invalid refl)))
    ]

-- `walk` without `alloc` changes nothing.
pub walk-last :
    (root va : ℕ) (s : Kmem)
    → va < max_va
    → walk_levels false 2 va root s ≡ (last_entry va (node s.memory root 2 va), s)
unfolding walk_levels node
walk-last root va s la =
    ap
      (λ (r : Option ℕ × Kmem). elim r.0 [
        | none ↦ (none, r.1)
        | some next ↦ walk_levels false 1 va next r.1
      ])
      (descend-false 0 2 va root s root refl refl)
    ∙ under (node s.memory root 1 va) refl
  where
    last :
        (o : Option ℕ)
        → ◌≡◌ {A = Option ℕ × Kmem}
            (elim o [ none ↦ (none, s) | some next ↦ walk_levels false 0 va next s ])
            (last_entry va o, s)
    last none = refl
    last (some p) = refl

    under :
        (o : Option ℕ)
        → node s.memory root 1 va ≡ o
        → ◌≡◌ {A = Option ℕ × Kmem}
            (elim o [ none ↦ (none, s) | some next ↦ walk_levels false 1 va next s ])
            (last_entry va (node s.memory root 2 va), s)
    under none h = rw (node-none s.memory root 1 va h) refl
    under (some p) h =
        ap
          (λ (r : Option ℕ × Kmem). elim r.0 [
            | none ↦ (none, r.1)
            | some next ↦ walk_levels false 0 va next r.1
          ])
          (descend-false 1 1 va p s root h refl)
        ∙ last (node s.memory root 2 va)
