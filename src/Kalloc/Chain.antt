-- ===== src/Kalloc/Chain.antt =====
-- The free list in memory spells a list of distinct pages; `kfree` and `kalloc` push and pop it.
use csklub_os.Base.{
  ℕ, ◌+◌, ◌%◌, ◌≤◌, ◌<◌, ◌≡◌, ◌≢◌, ◌⊎◌, ◌↔◌, inl, inr, refl, sym, ◌∙◌, subst, arith, ◌^◌, false,
  List, [], ◌∷◌, mem, ok, panic,
}
use csklub_os.Memory.{Memory, read64, write64, read64-agree, write64-outside, read64-write64}
use csklub_os.Str.{memset}
use csklub_os.Str.Move.{Outside, memset_lem}
use csklub_os.Kalloc.{Kmem, kfree, kalloc, page_size, phys_top}

-- A page that the allocator may own.
pub record IsPage (kernel_end pa : ℕ) : Type 0 where
  pub aligned : pa % page_size ≡ 0
  pub low : kernel_end ≤ pa
  pub high : pa < phys_top
  pub not_null : 0 < pa

-- From `head` on, the links in memory spell the pages of the list, no page twice.
abbrev pub Chain : ℕ → Memory → ℕ → List ℕ → Type 0
Chain e m head [] = head ≡ 0
Chain e m head (p ∷ ps) = (head ≡ p) × IsPage e p × (mem p ps ≡ false) × Chain e m (read64 m p) ps

pub Chain-agree :
    (e : ℕ) (m m' : Memory) (pa head : ℕ) (ps : List ℕ)
    → pa % page_size ≡ 0
    → ((a : ℕ) → Outside a pa page_size → m a ≡ m' a)
    → mem pa ps ≡ false
    → Chain e m head ps
    → Chain e m' head ps
unfolding mem
Chain-agree e m m' pa head [] al out new c = c
Chain-agree e m m' pa head (p ∷ ps) al out new c = (
  c.0,
  c.1,
  c.2,
  subst (λ h. Chain e m' h ps) (read64-agree m m' p (λ k lt. out (p + k) (apart k lt)))
      (Chain-agree e m m' pa (read64 m p) ps al out (ground arith) c.3),
)
  where
    differ : pa ≢ p
    differ = ground arith

    apart : (k : ℕ) → k < 8 → Outside (p + k) pa page_size
    apart k lt = omega (arith, differ, c.1.aligned)

Chain-head : (e : ℕ) (m : Memory) (head : ℕ) (ps : List ℕ) → Chain e m head ps → head < 2 ^ 64
Chain-head e m head [] c = omega (arith, c)
Chain-head e m head (p ∷ ps) c = omega (arith, c.0, c.1.high)

freed-Outside :
    (m : Memory) (pa link a : ℕ)
    → Outside a pa page_size
    → write64 (memset m pa 1 page_size) pa link a ≡ m a
freed-Outside m pa link a o =
    write64-outside (memset m pa 1 page_size) pa link a (omega arith)
    ∙ (memset_lem m pa 1 page_size).1 a o

-- `kfree` of a page of the allocator's that is not free succeeds, puts the page in front of the free
-- list, and changes no byte outside the page.
pub kfree-Chain :
    (e pa : ℕ) (s : Kmem) (ps : List ℕ)
    → IsPage e pa
    → mem pa ps ≡ false
    → Chain e s.memory s.freelist ps
    → (t : Kmem) × (kfree e pa s ≡ ok t)
      × Chain e t.memory t.freelist (pa ∷ ps)
      × ((a : ℕ) → Outside a pa page_size → t.memory a ≡ s.memory a)
unfolding kfree
kfree-Chain e pa s ps page new c = (
  record { memory = after; freelist = pa },
  ground (arith, page.aligned, page.low, page.high),
  (
    refl,
    page,
    new,
    subst (λ h. Chain e after h ps)
        (sym (
          read64-write64 (memset s.memory pa 1 page_size) pa s.freelist
            (Chain-head e s.memory s.freelist ps c)))
        (Chain-agree e s.memory after pa s.freelist ps page.aligned
          (λ a o. sym (freed-Outside s.memory pa s.freelist a o)) new c),
  ),
  λ a o. freed-Outside s.memory pa s.freelist a o,
)
  where
    after : Memory
    after = write64 (memset s.memory pa 1 page_size) pa s.freelist

-- `kfree` stops the machine exactly at an address that is not a page's, or not the allocator's.
pub kfree-panic :
    (e pa : ℕ) (s : Kmem)
    → (kfree e pa s ≡ panic) ↔ ((pa % page_size ≢ 0) ⊎ (pa < e) ⊎ (phys_top ≤ pa))
unfolding kfree
kfree-panic e pa s = ground arith

-- A call of `kalloc` with the free pages `ps`: there is none and it returns 0 and changes nothing, or
-- it returns the first page, which is then no longer free, and filled with 5s; the list keeps the
-- other pages, and no byte outside the page changes.
abbrev pub Allocated : ℕ → Kmem → List ℕ → Type 0
Allocated e s ps =
    ((ps ≡ []) × (kalloc s ≡ (0, s)))
    ⊎ ((p : ℕ) × (rest : List ℕ) × (t : Kmem) × (ps ≡ p ∷ rest)
        × (kalloc s ≡ (p, t))
        × IsPage e p
        × (mem p rest ≡ false)
        × Chain e t.memory t.freelist rest
        × ((i : ℕ) → i < page_size → t.memory (p + i) ≡ 5)
        × ((a : ℕ) → Outside a p page_size → t.memory a ≡ s.memory a))

-- `kalloc` returns the first free page, which is then no longer free, filled with 5s, and
-- changes no byte outside it; the list keeps the other pages. Without a free page it returns 0 and
-- changes nothing.
pub kalloc-Chain :
    (e : ℕ) (s : Kmem) (ps : List ℕ) → Chain e s.memory s.freelist ps → Allocated e s ps
unfolding kalloc
kalloc-Chain e s [] c = inl (refl, ground arith)
kalloc-Chain e s (p ∷ rest) c = inr (
  p,
  rest,
  record { memory = memset s.memory p 5 page_size; freelist = read64 s.memory p },
  refl,
  ground (arith, c.0, c.1.not_null),
  c.1,
  c.2,
  Chain-agree e s.memory (memset s.memory p 5 page_size) p (read64 s.memory p) rest c.1.aligned
      (λ a o. sym ((memset_lem s.memory p 5 page_size).1 a o)) c.2 c.3,
  (memset_lem s.memory p 5 page_size).0,
  (memset_lem s.memory p 5 page_size).1,
)
