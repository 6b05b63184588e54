-- ===== src/Vm/Tree.antt =====
-- The tables under a root, each at the depth where `walk` comes to it, and the entries that they end in.
use csklub_os.Base.{
  Option-cases, inl, inr, ℕ, zero, suc, ◌+◌, ◌*◌, ◌/◌, ◌%◌, ◌^◌, ◌<◌, ◌≡◌, refl, sym, ◌∙◌, ap,
  subst, arith, false, List, mem, Option, none, some, if◌then◌else◌,
}
use csklub_os.Memory.{Memory, read64}
use csklub_os.Vm.{px, max_va, pte2pa, is_valid}

-- The index of `va` in a table at the depth, and what `va` has in common with the other addresses
-- for which `walk` comes to the same table.
abbrev pub index : ℕ → ℕ → ℕ
index zero va = px 2 va
index (suc zero) va = px 1 va
index (suc (suc d)) va = px 0 va

abbrev pub prefix : ℕ → ℕ → ℕ
prefix zero va = 0
prefix (suc zero) va = va / 2 ^ 30
prefix (suc (suc zero)) va = va / 2 ^ 21
prefix (suc (suc (suc d))) va = va / 2 ^ 12

abbrev pub slot : ℕ → ℕ → ℕ → ℕ
slot d va p = p + 8 * index d va

-- The table that an entry points to.
abbrev pub child : ℕ → Option ℕ
child pte = if is_valid pte then some (pte2pa pte) else none

unfoldable pub node : Memory → ℕ → ℕ → ℕ → Option ℕ
node m root zero va = some root
node m root (suc d) va = elim (node m root d va) [
  | none ↦ none
  | some p ↦ child (read64 m (slot d va p))
]

-- The entry for the page of `va`, 0 where there is no table for it.
unfoldable pub leaf : Memory → ℕ → ℕ → ℕ
leaf m root va = elim (node m root 2 va) [ none ↦ 0 | some p ↦ read64 m (slot 2 va p) ]

-- Each table is a page that is not free, and is come to in one way only.
pub record IsTree (m : Memory) (root : ℕ) (free : List ℕ) : Type 0 where
  pub aligned : (d va p : ℕ) → d < 3 → va < max_va → node m root d va ≡ some p → p % 4096 ≡ 0
  pub apart :
      (d e va vb p : ℕ)
      → d < 3
      → e < 3
      → va < max_va
      → vb < max_va
      → node m root d va ≡ some p
      → node m root e vb ≡ some p
      → (d ≡ e) × (prefix d va ≡ prefix d vb)
  pub taken : (d va p : ℕ) → d < 3 → va < max_va → node m root d va ≡ some p → mem p free ≡ false

pub index-small : (d va : ℕ) → index d va < 512
index-small zero va = omega arith
index-small (suc zero) va = omega arith
index-small (suc (suc d)) va = omega arith

pub prefix-split :
    (d va vb : ℕ)
    → prefix (suc d) va ≡ prefix (suc d) vb
    → d < 3
    → (prefix d va ≡ prefix d vb) × (index d va ≡ index d vb)
prefix-split zero va vb e lt = omega (arith, e)
prefix-split (suc zero) va vb e lt = omega (arith, e)
prefix-split (suc (suc zero)) va vb e lt = omega (arith, e)
prefix-split (suc (suc (suc d))) va vb e lt = absurd (omega (arith, lt))

pub prefix-join :
    (d va vb : ℕ)
    → va < max_va
    → vb < max_va
    → d < 3
    → prefix d va ≡ prefix d vb
    → index d va ≡ index d vb
    → prefix (suc d) va ≡ prefix (suc d) vb
prefix-join zero va vb h h' lt e f = omega (arith, e, f, h, h')
prefix-join (suc zero) va vb h h' lt e f = omega (arith, e, f)
prefix-join (suc (suc zero)) va vb h h' lt e f = omega (arith, e, f)
prefix-join (suc (suc (suc d))) va vb h h' lt e f = absurd (omega (arith, lt))

pub node-prefix :
    (m : Memory) (root d va vb : ℕ)
    → d < 3
    → prefix d va ≡ prefix d vb
    → node m root d va ≡ node m root d vb
unfolding node
node-prefix m root zero va vb lt e = refl
node-prefix m root (suc d) va vb lt e =
    let (up, same) = prefix-split d va vb e (omega (arith, lt)) in
    let f : (p : ℕ) → slot d va p ≡ slot d vb p = λ p. omega (arith, same) in
    rw (node-prefix m root d va vb (omega (arith, lt)) up) (under m d va vb f (node m root d vb))
  where
    under :
        (m : Memory) (d va vb : ℕ)
        → ((p : ℕ) → slot d va p ≡ slot d vb p)
        → (o : Option ℕ)
        → ◌≡◌ {A = Option ℕ}
            (elim o [ none ↦ none | some p ↦ child (read64 m (slot d va p)) ])
            (elim o [ none ↦ none | some p ↦ child (read64 m (slot d vb p)) ])
    under m d va vb f none = refl
    under m d va vb f (some p) = ap (λ a. child (read64 m a)) (f p)

pub node-suc :
    (m : Memory) (root d va p : ℕ)
    → node m root d va ≡ some p
    → node m root (suc d) va ≡ child (read64 m (slot d va p))
unfolding node
node-suc m root d va p h = rw (node, h) refl

pub node-none :
    (m : Memory) (root d va : ℕ) → node m root d va ≡ none → node m root (suc d) va ≡ none
unfolding node
node-none m root d va h = rw (node, h) refl

pub leaf-some :
    (m : Memory) (root va p : ℕ)
    → node m root 2 va ≡ some p
    → leaf m root va ≡ read64 m (slot 2 va p)
unfolding leaf
leaf-some m root va p h = rw (leaf, h) refl

pub leaf-none : (m : Memory) (root va : ℕ) → node m root 2 va ≡ none → leaf m root va ≡ 0
unfolding leaf
leaf-none m root va h = rw (leaf, h) refl

-- Two entries of a tree are the same word only if they are the same entry.
pub slot-apart :
    (m : Memory) (root : ℕ) (free : List ℕ) (d e va vb p q : ℕ)
    → IsTree m root free
    → d < 3
    → e < 3
    → va < max_va
    → vb < max_va
    → node m root d va ≡ some p
    → node m root e vb ≡ some q
    → slot d va p ≡ slot e vb q
    → (d ≡ e) × (prefix (suc d) va ≡ prefix (suc d) vb)
slot-apart m root free d e va vb p q t ld le la lb hp hq same =
    let ia = index-small d va in
    let ib = index-small e vb in
    let pq : p ≡ q =
      omega (arith, same, ia, ib, t.aligned d va p ld la hp, t.aligned e vb q le lb hq) in
    let (de, pre) = t.apart d e va vb p ld le la lb hp (hq ∙ ap some (sym pq)) in
    let idx : index d va ≡ index d vb =
      subst (λ f. index d va ≡ index f vb) (sym de) (omega (arith, same, pq)) in
    (de, prefix-join d va vb la lb ld pre idx)

-- An entry is the same for all addresses of a page.
pub leaf-page :
    (m : Memory) (root va vb : ℕ) → va / 4096 ≡ vb / 4096 → leaf m root va ≡ leaf m root vb
leaf-page m root va vb e =
    let (up, idx) = prefix-split 2 va vb e (omega arith) in
    let nodes = node-prefix m root 2 va vb (omega arith) up in
    elim (Option-cases (node m root 2 va)) [
      | inl lost ↦ leaf-none m root va lost ∙ sym (leaf-none m root vb (sym nodes ∙ lost))
      | inr (p, hp) ↦
          leaf-some m root va p hp
          ∙ ap (λ i. read64 m (p + 8 * i)) idx
          ∙ sym (leaf-some m root vb p (sym nodes ∙ hp))
    ]
