-- ===== src/Vm/Copy/Target.antt =====
-- One page's part of `copyout`.
use csklub_os.Base.{
  ℕ, ◌+◌, ◌-◌, ◌%◌, ◌≤◌, ◌<◌, ◌≡◌, ◌≢◌, ◌⊎◌, inl, inr, refl, sym, ◌∙◌, ap, arith, Bool, true, false,
  ◌&&◌, Option, none, some, ltb, leb, if◌then◌else◌, Bool-cases, dec_lt,
}
use csklub_os.Memory.{Memory, IsBytes, read64}
use csklub_os.Str.{memmove}
use csklub_os.Str.Move.{memmove_lem}
use csklub_os.Kalloc.{Kmem, page_size}
use csklub_os.Vm.{max_va, is_valid, is_user, is_writable, pte2pa}
use csklub_os.Vm.Tree.{node, leaf, leaf-page, leaf-some, leaf-none}
use csklub_os.Vm.Grow.{bytes-node}
use csklub_os.Vm.Walk.{walk-last, last_entry}
use csklub_os.Vm.Copy.{page_start, in_page, out_page}
use csklub_os.Vm.Copy.Address.{memmove-IsBytes}

-- The page of an entry, if the user may write to it.
abbrev pub writable_page : ℕ → Option ℕ
writable_page pte =
    if is_valid pte && is_user pte && is_writable pte then some (pte2pa pte) else none

-- The byte that a user address stands for, if the user may write to it.
abbrev pub target : ℕ → Memory → ℕ → Option ℕ
target root m va =
    if ltb va max_va
    then elim (writable_page (leaf m root va)) [ none ↦ none | some pa ↦ some (pa + va % 4096) ]
    else none

pub out_page-leaf :
    (root va : ℕ) (s : Kmem)
    → va < max_va
    → out_page root va s ≡ writable_page (leaf s.memory root va)
unfolding out_page
out_page-leaf root va s la =
    let inside : leb max_va va ≡ false = ground (arith, la) in
    rw (out_page, inside, walk-last root va s la) (go (node s.memory root 2 va) refl)
  where
    go :
        (o : Option ℕ)
        → node s.memory root 2 va ≡ o
        → ◌≡◌ {A = Option ℕ}
            (elim (last_entry va o) [
              | none ↦ none
              | some at ↦
                  if is_valid (read64 s.memory at)
                    && is_user (read64 s.memory at)
                    && is_writable (read64 s.memory at)
                  then some (pte2pa (read64 s.memory at))
                  else none
            ])
            (writable_page (leaf s.memory root va))
    go none h = rw (leaf-none s.memory root va h) refl
    go (some p) h = rw (leaf-some s.memory root va p h) refl

-- What `copyout` needs of a target: the bytes are not of the tables and not of the source, and no two
-- addresses stand for the same byte.
pub record SafeOut (root : ℕ) (m : Memory) (dstva src len : ℕ) : Type 0 where
  pub tables :
      (i a d vb p : ℕ)
      → i < len
      → target root m (dstva + i) ≡ some a
      → d < 3
      → vb < max_va
      → node m root d vb ≡ some p
      → (a < p) ⊎ (p + 4096 ≤ a)
  pub sources : (i j a : ℕ) → i < len → j < len → target root m (dstva + i) ≡ some a → a ≢ src + j
  pub distinct :
      (i j a : ℕ)
      → i < len
      → j < len
      → target root m (dstva + i) ≡ some a
      → target root m (dstva + j) ≡ some a
      → i ≡ j

pub record CopiedOut (root : ℕ) (m : Memory) (dstva src len : ℕ) (r : Bool × Kmem) : Type 0 where
  pub done :
      r.0 ≡ true
      → (i : ℕ) → i < len
      → (a : ℕ) × (target root m (dstva + i) ≡ some a) × (r.1.memory a ≡ m (src + i))
  pub fault : r.0 ≡ false → (i : ℕ) × (i < len) × (target root m (dstva + i) ≡ none)
  pub other :
      (b : ℕ) → ((i : ℕ) → i < len → target root m (dstva + i) ≢ some b) → r.1.memory b ≡ m b

-- In one page, the bytes stand together.
pub target-page :
    (root : ℕ) (m : Memory) (va i pa : ℕ)
    → ltb va max_va ≡ true
    → writable_page (leaf m root va) ≡ some pa
    → i < page_size - (va - page_start va)
    → target root m (va + i) ≡ some (pa + (va - page_start va) + i)
target-page root m va i pa la h lt =
    let inside : ltb (va + i) max_va ≡ true = ground (arith, la, lt) in
    rw (inside, leaf-page m root (va + i) va (omega (arith, lt)), h) (ap some (omega (arith, lt)))

-- A round of `copyout`.
pub record RoundOut (root : ℕ) (m m' : Memory) (dstva src n : ℕ) : Type 0 where
  pub bytes : IsBytes m'
  pub inside : (i a : ℕ) → i < n → target root m (dstva + i) ≡ some a → m' a ≡ m (src + i)
  pub outside : (b : ℕ) → ((i : ℕ) → i < n → target root m (dstva + i) ≢ some b) → m' b ≡ m b
  pub nodes : (d vb : ℕ) → d < 3 → vb < max_va → node m' root d vb ≡ node m root d vb
  pub same : (va : ℕ) → target root m' va ≡ target root m va

module _ (root : ℕ) (m : Memory) (dstva src len pa : ℕ) (h : IsBytes m)
    (safe : SafeOut root m dstva src len) (la : ltb dstva max_va ≡ true)
    (page : writable_page (leaf m root dstva) ≡ some pa) where
  base : ℕ
  base = pa + (dstva - page_start dstva)

  in_target : (i : ℕ) → i < in_page dstva len → target root m (dstva + i) ≡ some (base + i)
  unfolding base
  in_target i lt = target-page root m dstva i pa la page (omega (arith, lt))

  written_elsewhere :
      (b : ℕ)
      → ((i : ℕ) → i < in_page dstva len → target root m (dstva + i) ≢ some b)
      → memmove m base src (in_page dstva len) b ≡ m b
  written_elsewhere b other = elim (dec_lt b base) [
    | yes low ↦ (memmove_lem m base src (in_page dstva len) h).1 b (inl low)
    | no above ↦ elim (dec_lt (b - base) (in_page dstva len)) [
      | no behind ↦
          (memmove_lem m base src (in_page dstva len) h).1 b (inr (omega (arith, above, behind)))
      | yes lt ↦
          absurd (other (b - base) lt (in_target (b - base) lt ∙ ap some (omega (arith, above))))
    ]
  ]

  tables_kept :
      ((d vb : ℕ)
        → d < 3
        → vb < max_va
        → node (memmove m base src (in_page dstva len)) root d vb ≡ node m root d vb)
      × ((vb : ℕ)
          → vb < max_va
          → leaf (memmove m base src (in_page dstva len)) root vb ≡ leaf m root vb)
  tables_kept = bytes-node m (memmove m base src (in_page dstva len)) root (λ d vb p k ld lb hp lt.
      written_elsewhere (p + k) (λ i li z.
        absurd (omega (arith, safe.tables i (p + k) d vb p (omega (arith, li)) z ld lb hp, lt))))

  pub one-RoundOut :
      RoundOut root m
        (memmove m (pa + (dstva - page_start dstva)) src (in_page dstva len))
        dstva
        src
        (in_page dstva len)
  unfolding base
  one-RoundOut = record {
    bytes = memmove-IsBytes m base src (in_page dstva len) h;
    inside = λ i a lt z.
        let e : base + i ≡ a = cc (sym (in_target i lt) ∙ z) in
        ap (memmove m base src (in_page dstva len)) (sym e)
        ∙ (memmove_lem m base src (in_page dstva len) h).0 i lt;
    outside = written_elsewhere;
    nodes = tables_kept.0;
    same = λ va. elim (Bool-cases (ltb va max_va)) [
      | inl lt ↦ rw (lt, tables_kept.1 va (ground (arith, lt))) refl
      | inr over ↦ rw over refl
    ];
  }
