-- ===== src/Vm/Copy/Out.antt =====
-- What `copyout` copies.
use csklub_os.Base.{
  ℕ, zero, suc, ◌+◌, ◌-◌, ◌<◌, ◌≡◌, inl, inr, refl, sym, ◌∙◌, ap, arith, Bool, true, false, Option,
  none, some, ltb, leb, if◌then◌else◌, Bool-cases, Option-cases, ℕ_discrete, eq→==, ne→==, dec_lt,
}
use csklub_os.Memory.{Memory, IsBytes}
use csklub_os.Kalloc.{Kmem, page_size}
use csklub_os.Vm.{max_va}
use csklub_os.Vm.Tree.{leaf, leaf-page}
use csklub_os.Vm.Copy.{page_start, in_page, move, out_page, copyout}
use csklub_os.Vm.Copy.Address.{next_page}
use csklub_os.Vm.Copy.Target.{
  writable_page, target, out_page-leaf, SafeOut, CopiedOut, target-page, RoundOut, one-RoundOut,
}

module _ (root : ℕ) (m m' : Memory) (dstva src len : ℕ) (safe : SafeOut root m dstva src len)
    (round : RoundOut root m m' dstva src (in_page dstva len)) where
  next-target :
      (i : ℕ)
      → i < len - in_page dstva len
      → target root m' (next_page dstva + i) ≡ target root m (dstva + (in_page dstva len + i))
  next-target i lt = round.same (next_page dstva + i) ∙ ap (target root m) (omega (arith, lt))

  next-SafeOut :
      SafeOut root m' (next_page dstva) (src + in_page dstva len) (len - in_page dstva len)
  next-SafeOut = record {
    tables = λ i a d vb p lt z ld lb hp.
        safe.tables (in_page dstva len + i) a d vb p (omega (arith, lt))
          (sym (next-target i lt) ∙ z) ld lb (sym (round.nodes d vb ld lb) ∙ hp);
    sources = λ i j a li lj z e.
        safe.sources (in_page dstva len + i) (in_page dstva len + j) a (omega (arith, li))
          (omega (arith, lj)) (sym (next-target i li) ∙ z) (omega (arith, e));
    distinct = λ i j a li lj z z'.
        let e =
          safe.distinct (in_page dstva len + i) (in_page dstva len + j) a (omega (arith, li))
            (omega (arith, lj)) (sym (next-target i li) ∙ z) (sym (next-target j lj) ∙ z') in
        omega (arith, e);
  }

  all-CopiedOut :
      ((i : ℕ) → i < in_page dstva len → (a : ℕ) × (target root m (dstva + i) ≡ some a))
      → (r : Bool × Kmem)
      → CopiedOut root m' (next_page dstva) (src + in_page dstva len) (len - in_page dstva len) r
      → CopiedOut root m dstva src len r
  all-CopiedOut here r c = record {
    done = λ e i lt. elim (dec_lt i n) [
      | yes early ↦
          let (a, z) = here i early in
          (
            a,
            z,
            c.other a (λ j lj z'.
                  let same =
                    safe.distinct i (n + j) a lt (omega (arith, lj)) z
                      (sym (next-target j lj) ∙ z') in
                  absurd (omega (arith, same, early)))
                ∙ round.inside i a early z,
          )
      | no late ↦
          let li : i - n < len - n = omega (arith, lt, late) in
          let (a, z, moved) = c.done e (i - n) li in
          let back : n + (i - n) ≡ i = omega (arith, late) in
          (
            a,
            ap (λ k. target root m (dstva + k)) (sym back) ∙ sym (next-target (i - n) li) ∙ z,
            moved
                ∙ ap m' (omega (arith, late))
                ∙ round.outside (src + i)
                    (λ j lj z'. absurd (safe.sources j i (src + i) (omega (arith, lj)) lt z' refl)),
          )
    ];
    fault =
        λ e. let (i, lt, z) = c.fault e in (n + i, omega (arith, lt), sym (next-target i lt) ∙ z);
    other = λ b clear.
        c.other b (λ i lt z. clear (n + i) (omega (arith, lt)) (sym (next-target i lt) ∙ z))
        ∙ round.outside b (λ i lt. clear i (omega (arith, lt)));
  }
    where
      n : ℕ
      n = in_page dstva len

-- The page of a user address, if the user may write to it.
abbrev user_target : ℕ → Memory → ℕ → Option ℕ
user_target root m va = if ltb va max_va then writable_page (leaf m root va) else none

out_page-start :
    (root va : ℕ) (s : Kmem) → out_page root (page_start va) s ≡ user_target root s.memory va
unfolding out_page
out_page-start root va s = elim (dec_lt (page_start va) max_va) [
  | yes lt ↦
      let inside : ltb va max_va ≡ true = ground (arith, lt) in
      out_page-leaf root (page_start va) s lt
      ∙ ap (λ l. writable_page l) (leaf-page s.memory root (page_start va) va (omega arith))
      ∙ rw inside refl
  | no over ↦
      let outside : ltb va max_va ≡ false = ground (arith, over) in
      let stop : leb max_va (page_start va) ≡ true = ground (arith, over) in
      rw (out_page, stop, outside) refl
]

no-target :
    (root : ℕ) (m : Memory) (va : ℕ) → user_target root m va ≡ none → target root m (va + 0) ≡ none
no-target root m va h =
    let z : va + 0 ≡ va = omega arith in
    ap (λ a. target root m a) z ∙ elim (Bool-cases (ltb va max_va)) [
      | inl inside ↦ rw (inside, rw inside at h) refl
      | inr outside ↦ rw outside refl
    ]

-- `copyout` from a kernel buffer, to addresses that stand for bytes of their own, which are neither of the
-- tables nor of the buffer, returns: with 0 only if the user may write to every address of the
-- range, and then the bytes that these addresses stand for are those of the buffer; with -1 only if
-- the user may not write to one of them. In either case no byte changes but those that the user may
-- write to at an address of the range.
pub copyout-CopiedOut :
    (fuel root dstva src len : ℕ) (s : Kmem)
    → len < fuel
    → IsBytes s.memory
    → SafeOut root s.memory dstva src len
    → (r : Bool × Kmem) × (copyout fuel root dstva src len s ≡ some r)
      × CopiedOut root s.memory dstva src len r
unfolding copyout
copyout-CopiedOut zero root dstva src len s lt h safe = absurd (omega (arith, lt))
copyout-CopiedOut (suc fuel) root dstva src len s lt h safe = elim (ℕ_discrete len 0) [
  | yes z ↦ (
    (true, s),
    rw (copyout, eq→== len 0 z) refl,
    record {
      done = λ e i li. absurd (omega (arith, li, z));
      fault = λ e. absurd (cc e);
      other = λ b clear. refl;
    },
  )
  | no more ↦ elim (Option-cases (user_target root s.memory dstva)) [
    | inl lost ↦
        let e : out_page root (page_start dstva) s ≡ none = out_page-start root dstva s ∙ lost in
        (
          (false, s),
          rw (copyout, ne→== len 0 more, e) refl,
          record {
            done = λ x i li. absurd (cc x);
            fault = λ x. (0, omega (arith, more), no-target root s.memory dstva lost);
            other = λ b clear. refl;
          },
        )
    | inr (pa, found) ↦
        let e : out_page root (page_start dstva) s ≡ some pa =
          out_page-start root dstva s ∙ found in
        let (la, page) = opened pa found in
        let t : Kmem = move (pa + (dstva - page_start dstva)) src (in_page dstva len) s in
        let round = one-RoundOut root s.memory dstva src len pa h safe la page in
        let (r, q, c) =
          copyout-CopiedOut fuel root (page_start dstva + page_size) (src + in_page dstva len)
            (len - in_page dstva len) t (omega (arith, lt, more)) round.bytes
            (next-SafeOut root s.memory t.memory dstva src len safe round) in
        (
          r,
          rw (copyout, ne→== len 0 more, e) q,
          all-CopiedOut root s.memory t.memory dstva src len safe round
              (λ i li. (
                pa + (dstva - page_start dstva) + i,
                target-page root s.memory dstva i pa la page (omega (arith, li)),
              ))
              r c,
        )
  ]
]
  where
    opened :
        (pa : ℕ)
        → user_target root s.memory dstva ≡ some pa
        → (ltb dstva max_va ≡ true) × (writable_page (leaf s.memory root dstva) ≡ some pa)
    opened pa e = elim (Bool-cases (ltb dstva max_va)) [
      | inl inside ↦ (inside, rw inside at e)
      | inr outside ↦ absurd (cc (rw outside at e))
    ]
