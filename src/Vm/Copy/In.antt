-- ===== src/Vm/Copy/In.antt =====
-- What `copyin` copies.
use csklub_os.Base.{
  ℕ, zero, suc, ◌+◌, ◌-◌, ◌%◌, ◌≤◌, ◌<◌, ◌≡◌, ◌≢◌, ◌⊎◌, inl, inr, refl, sym, ◌∙◌, ap, arith, Bool,
  true, false, some, ltb, ◌==◌, Bool-cases, ℕ_discrete, eq→==, ne→==, dec_lt,
}
use csklub_os.Memory.{Memory, IsBytes}
use csklub_os.Str.{memmove}
use csklub_os.Str.Move.{Outside, memmove_lem}
use csklub_os.Kalloc.{Kmem, page_size}
use csklub_os.Vm.{max_va, walkaddr}
use csklub_os.Vm.Tree.{node, leaf}
use csklub_os.Vm.Grow.{bytes-node}
use csklub_os.Vm.Copy.{page_start, in_page, move, copyin}
use csklub_os.Vm.Copy.Address.{next_page, phys, byte_at, phys-page, walkaddr-phys, memmove-IsBytes}

-- The bytes to be written are none of the tables' and none that are to be read.
pub record Safe (root : ℕ) (m : Memory) (dst srcva len : ℕ) : Type 0 where
  pub tables :
      (d vb p : ℕ)
      → d < 3
      → vb < max_va
      → node m root d vb ≡ some p
      → (dst + len ≤ p) ⊎ (p + 4096 ≤ dst)
  pub sources :
      (i j : ℕ)
      → i < len
      → j < len
      → phys root m (srcva + i) ≢ 0
      → byte_at root m (srcva + i) ≢ dst + j

pub record Copied (root : ℕ) (m : Memory) (dst srcva len : ℕ) (r : Bool × Kmem) : Type 0 where
  pub done :
      r.0 ≡ true
      → (i : ℕ) → i < len
      → (phys root m (srcva + i) ≢ 0) × (r.1.memory (dst + i) ≡ m (byte_at root m (srcva + i)))
  pub fault : r.0 ≡ false → (i : ℕ) × (i < len) × (phys root m (srcva + i) ≡ 0)
  pub other : (a : ℕ) → Outside a dst len → r.1.memory a ≡ m a

-- A round of `copyin`: `n` bytes are at `dst`, and no translation has changed.
record Round (root : ℕ) (m m' : Memory) (dst srcva n : ℕ) : Type 0 where
  pub bytes : IsBytes m'
  pub inside : (i : ℕ) → i < n → m' (dst + i) ≡ m (byte_at root m (srcva + i))
  pub outside : (a : ℕ) → Outside a dst n → m' a ≡ m a
  pub nodes : (d vb : ℕ) → d < 3 → vb < max_va → node m' root d vb ≡ node m root d vb
  pub same : (va : ℕ) → phys root m' va ≡ phys root m va

one-Round :
    (root : ℕ) (m : Memory) (dst srcva len : ℕ)
    → IsBytes m
    → Safe root m dst srcva len
    → Round root m
        (memmove m dst (phys root m srcva + (srcva - page_start srcva)) (in_page srcva len))
        dst
        srcva
        (in_page srcva len)
one-Round root m dst srcva len h safe = record {
  bytes = memmove-IsBytes m dst src n h;
  inside = λ i lt.
      (memmove_lem m dst src n h).0 i lt
      ∙ ap m (omega (arith, lt, phys-page root m (srcva + i) srcva (omega (arith, lt))));
  outside = outside;
  nodes = kept.0;
  same = λ va. elim (Bool-cases (ltb va max_va)) [
    | inl lt ↦ rw (lt, kept.1 va (ground (arith, lt))) refl
    | inr over ↦ rw over refl
  ];
}
  where
    n : ℕ
    n = in_page srcva len

    src : ℕ
    src = phys root m srcva + (srcva - page_start srcva)

    outside : (a : ℕ) → Outside a dst n → memmove m dst src n a ≡ m a
    outside = (memmove_lem m dst src n h).1

    kept :
        ((d vb : ℕ) → d < 3 → vb < max_va → node (memmove m dst src n) root d vb ≡ node m root d vb)
        × ((vb : ℕ) → vb < max_va → leaf (memmove m dst src n) root vb ≡ leaf m root vb)
    kept =
        bytes-node m (memmove m dst src n) root
          (λ d vb p k ld lb hp lt. outside (p + k) (omega (arith, safe.tables d vb p ld lb hp, lt)))

-- The rest, after a round that does not end the copying.
module _ (root : ℕ) (m m' : Memory) (dst srcva len : ℕ) (safe : Safe root m dst srcva len)
    (round : Round root m m' dst srcva (in_page srcva len)) where
  -- With bytes left, the next page begins behind the bytes that were copied.
  next-address :
      (i : ℕ)
      → i < len - in_page srcva len
      → (next_page srcva) + i ≡ srcva + (in_page srcva len + i)
  next-address i lt = omega (arith, lt)

  next-phys :
      (i : ℕ)
      → i < len - in_page srcva len
      → phys root m' ((next_page srcva) + i) ≡ phys root m (srcva + (in_page srcva len + i))
  next-phys i lt = round.same ((next_page srcva) + i) ∙ ap (phys root m) (next-address i lt)

  next-byte :
      (i : ℕ)
      → i < len - in_page srcva len
      → byte_at root m' ((next_page srcva) + i) ≡ byte_at root m (srcva + (in_page srcva len + i))
  next-byte i lt = omega (arith, next-phys i lt, ap (λ a. a % 4096) (next-address i lt))

  next-Safe : Safe root m' (dst + in_page srcva len) (next_page srcva) (len - in_page srcva len)
  next-Safe = record {
    tables = λ d vb p ld lb hp.
        omega (arith, safe.tables d vb p ld lb (sym (round.nodes d vb ld lb) ∙ hp));
    sources = λ i j li lj mapped z.
        safe.sources (in_page srcva len + i) (in_page srcva len + j) (omega (arith, li))
          (omega (arith, lj)) (λ e. mapped (next-phys i li ∙ e)) (omega (arith, z, next-byte i li));
  }

  all-Copied :
      phys root m srcva ≢ 0
      → (r : Bool × Kmem)
      → Copied root m' (dst + in_page srcva len) (next_page srcva) (len - in_page srcva len) r
      → Copied root m dst srcva len r
  all-Copied mapped r c = record {
    done = λ h i lt. elim (dec_lt i n) [
      | yes early ↦ (
        (λ z. mapped (sym (phys-page root m (srcva + i) srcva (omega (arith, early))) ∙ z)),
        c.other (dst + i) (inl (omega (arith, early))) ∙ round.inside i early,
      )
      | no late ↦
          let li : i - n < len - n = omega (arith, lt, late) in
          let back : srcva + (n + (i - n)) ≡ srcva + i = omega (arith, late) in
          let (there, moved) = c.done h (i - n) li in
          let mapped' : phys root m (srcva + i) ≢ 0 =
            λ z. there (next-phys (i - n) li ∙ ap (phys root m) back ∙ z) in
          let at : dst + i ≡ dst + n + (i - n) = omega (arith, late) in
          (
            mapped',
            ap (λ a. r.1.memory a) at
                ∙ moved
                ∙ ap m' (next-byte (i - n) li ∙ ap (byte_at root m) back)
                ∙ round.outside (byte_at root m (srcva + i)) (clear i lt mapped'),
          )
    ];
    fault = λ h. let (i, lt, z) = c.fault h in (n + i, omega (arith, lt), sym (next-phys i lt) ∙ z);
    other = λ a o. c.other a (omega (arith, o)) ∙ round.outside a (omega (arith, o));
  }
    where
      n : ℕ
      n = in_page srcva len

      -- A byte that is to be read is not among those written.
      clear :
          (i : ℕ)
          → i < len
          → phys root m (srcva + i) ≢ 0
          → Outside (byte_at root m (srcva + i)) dst n
      clear i lt there = elim (dec_lt (byte_at root m (srcva + i)) dst) [
        | yes below ↦ inl below
        | no above ↦ elim (dec_lt (byte_at root m (srcva + i) - dst) n) [
          | no behind ↦ inr (omega (arith, above, behind))
          | yes within ↦ absurd (
              safe.sources i (byte_at root m (srcva + i) - dst) lt (omega (arith, within)) there
                (omega (arith, above)))
        ]
      ]

-- `copyin` to a kernel buffer that overlaps neither the tables nor the bytes that are read returns:
-- with 0 only if every address of the range is mapped for the user, and then the buffer has the bytes
-- that these addresses stand for; with -1 only if one of them is not. No other byte changes.
pub copyin-Copied :
    (fuel root dst srcva len : ℕ) (s : Kmem)
    → len < fuel
    → IsBytes s.memory
    → Safe root s.memory dst srcva len
    → (r : Bool × Kmem) × (copyin fuel root dst srcva len s ≡ some r)
      × Copied root s.memory dst srcva len r
unfolding copyin
copyin-Copied zero root dst srcva len s lt h safe = absurd (omega (arith, lt))
copyin-Copied (suc fuel) root dst srcva len s lt h safe = elim (ℕ_discrete len 0) [
  | yes z ↦ (
    (true, s),
    rw (copyin, eq→== len 0 z) refl,
    record {
      done = λ e i li. absurd (omega (arith, li, z));
      fault = λ e. absurd (cc e);
      other = λ a o. refl;
    },
  )
  | no more ↦ elim (ℕ_discrete (phys root s.memory srcva) 0) [
    | yes lost ↦
        let e : (walkaddr root (page_start srcva) s == 0) ≡ true =
          eq→== (walkaddr root (page_start srcva) s) 0 (walkaddr-phys root srcva s ∙ lost) in
        (
          (false, s),
          rw (copyin, ne→== len 0 more, e) refl,
          record {
            done = λ e i li. absurd (cc e);
            fault = λ e. (0, omega (arith, more), ap (phys root s.memory) (omega arith) ∙ lost);
            other = λ a o. refl;
          },
        )
    | no mapped ↦
        let found = walkaddr-phys root srcva s in
        let e : (walkaddr root (page_start srcva) s == 0) ≡ false =
          ne→== (walkaddr root (page_start srcva) s) 0 (λ z. mapped (sym found ∙ z)) in
        let t : Kmem =
          move dst (phys root s.memory srcva + (srcva - page_start srcva)) (in_page srcva len) s in
        let moved : ◌≡◌ {A = Kmem}
            (move dst (walkaddr root (page_start srcva) s + (srcva - page_start srcva))
              (in_page srcva len) s)
            t =
          ap (λ pa. move dst (pa + (srcva - page_start srcva)) (in_page srcva len) s) found in
        let round = one-Round root s.memory dst srcva len h safe in
        let (r, q, c) =
          copyin-Copied fuel root (dst + in_page srcva len) (page_start srcva + page_size)
            (len - in_page srcva len) t (omega (arith, lt, more)) round.bytes
            (next-Safe root s.memory t.memory dst srcva len safe round) in
        (
          r,
          rw (copyin, ne→== len 0 more, e)
              (ap
                  (copyin fuel root (dst + in_page srcva len) (page_start srcva + page_size)
                    (len - in_page srcva len))
                  moved
                ∙ q),
          all-Copied root s.memory t.memory dst srcva len safe round mapped r c,
        )
  ]
]
