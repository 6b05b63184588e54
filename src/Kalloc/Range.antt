-- ===== src/Kalloc/Range.antt =====
-- `kinit` makes every whole page between the kernel's end and PHYSTOP free.
use csklub_os.Base.{
  ℕ, zero, suc, ◌+◌, ◌-◌, ◌*◌, ◌/◌, ◌%◌, ◌≤◌, ◌<◌, ◌≡◌, ◌⊎◌, ◌↔◌, inl, inr, refl, arith, true,
  false, List, [], ◌∷◌, All, All-map, mem, ok,
}
use csklub_os.Kalloc.{Kmem, free_loop, kinit, page_round_up, page_size, phys_top}
use csklub_os.Kalloc.Chain.{Chain, IsPage, kfree-Chain}

-- The free list after `left` rounds from `p` on.
unfoldable pub stacked : ℕ → ℕ → List ℕ → List ℕ
stacked zero p ps = ps
stacked (suc left) p ps = stacked left (p + page_size) (p ∷ ps)

mem-above : (p : ℕ) (ps : List ℕ) → All (λ q. q < p) ps → mem p ps ≡ false
unfolding mem
mem-above p [] h = refl
mem-above p (q ∷ qs) h = ground (arith, mem-above p qs h.1)

free_loop-Chain :
    (e left p : ℕ) (s : Kmem) (ps : List ℕ)
    → p % page_size ≡ 0
    → e ≤ p
    → 0 < p
    → p + left * page_size ≤ phys_top
    → All (λ q. q < p) ps
    → Chain e s.memory s.freelist ps
    → (t : Kmem) × (free_loop e left p s ≡ ok t) × Chain e t.memory t.freelist (stacked left p ps)
unfolding free_loop stacked
free_loop-Chain e zero p s ps al lo pos_ hi below c = (s, refl, c)
free_loop-Chain e (suc left) p s ps al lo pos_ hi below c =
    let page : IsPage e p = record {
      aligned = al;
      low = lo;
      high = omega arith;
      not_null = pos_;
    } in
    let freed = kfree-Chain e p s ps page (mem-above p ps below) c in
    let later =
      free_loop-Chain e left (p + page_size) freed.0 (p ∷ ps) (omega arith) (omega arith)
        (omega arith) (omega arith)
        (omega arith, All-map (λ q. q < p) (λ q. q < p + page_size) ps (λ q h. omega arith) below)
        freed.2 in
    (later.0, rw (freed.1, free_loop) later.1, later.2)

mem-stacked :
    (left p q : ℕ) (ps : List ℕ)
    → p % page_size ≡ 0
    → (mem q (stacked left p ps) ≡ true)
      ↔ ((mem q ps ≡ true) ⊎ ((q % page_size ≡ 0) × (p ≤ q) × (q < p + left * page_size)))
unfolding mem stacked
mem-stacked zero p q ps al = ground arith
mem-stacked (suc left) p q ps al =
    ground (arith, mem-stacked left (p + page_size) q (p ∷ ps) (omega arith))

-- Starting with no free page, `kinit` succeeds, and then the free list has, each of them once,
-- exactly the pages that the allocator may own: the whole pages from the kernel's end up to
-- PHYSTOP.
pub kinit-Chain :
    (e : ℕ) (s : Kmem)
    → 0 < e
    → e ≤ phys_top
    → s.freelist ≡ 0
    → (t : Kmem) × (ps : List ℕ) × (kinit e s ≡ ok t)
      × Chain e t.memory t.freelist ps
      × ((q : ℕ) → (mem q ps ≡ true) ↔ IsPage e q)
unfolding kinit mem
kinit-Chain e s lo hi none_ = (
  done.0,
  stacked rounds start [],
  done.1,
  done.2,
  λ q. (
    λ m. elim ((mem-stacked rounds start q [] (omega arith)).0 m) [
      | inl nil ↦ absurd (cc)
      | inr (al, low, high) ↦ record {
        aligned = al;
        low = omega arith;
        high = omega arith;
        not_null = omega arith;
      }
    ],
    λ page. (mem-stacked rounds start q [] (omega arith)).1 (
        inr (
          page.aligned,
          omega (arith, page.aligned, page.low),
          omega (arith, page.aligned, page.high),
        )),
  ),
)
  where
    start : ℕ
    start = page_round_up e

    rounds : ℕ
    rounds = (phys_top - start) / page_size

    done :
        (t : Kmem) × (free_loop e rounds start s ≡ ok t)
        × Chain e t.memory t.freelist (stacked rounds start [])
    done =
        free_loop-Chain e rounds start s [] (omega arith) (omega arith) (omega arith) (omega arith)
          tt none_
