-- ===== src/Bio/Unique.antt =====
-- No block is in two buffers, and a buffer in use keeps its block.
use csklub_os.Base.{
  ℕ, ◌+◌, ◌-◌, ◌%◌, ◌^◌, ◌<◌, ◌≡◌, ◌≢◌, refl, sym, ◌∙◌, ap, subst, arith, ◌&&◌, false, List, ◌∷◌,
  ◌++◌, All-map, length, length-append, some, ok, ◌==◌, Bool-cases, Option-cases, inl, inr,
}
use csklub_os.Bio.{Buffer, holds, added, claimed, at, replace, unlink, brelse, holding_buffer}
use csklub_os.Bio.Get.{Got, hit, recycled}
use csklub_os.Bio.Totals.{total, is_block, total-none, Swapped, Swapped-middle, at-Found}
use csklub_os.Bio.Held.{
  Cache, IsCache, occurs, occurs-length, occurs-cons, occurs-middle, swap-IsCache, refcnt-occurs,
}

pub Got-IsCache :
    (k : Cache) (d n s : ℕ) (cs : List Buffer)
    → IsCache k
    → d ≢ 0
    → length k.holders + 1 < 2 ^ 32
    → Got d n k.buffers s cs
    → IsCache (record { buffers = cs; holders = s ∷ k.holders })
Got-IsCache k d n s cs w nz few (hit xs ys b e before same) =
    let x = Swapped-middle b (added b) k.buffers xs ys e in
    let count = refcnt-occurs k b (added b) (xs ++ added b ∷ ys) w x in
    let small : b.refcnt + 1 < 2 ^ 32 = omega (arith, count, occurs-length b.slot k.holders, few) in
    swap-IsCache k b (added b) (xs ++ added b ∷ ys) (b.slot ∷ k.holders) w x refl
      (λ u v h. omega (arith, w.unique u v h))
      (λ t. ground (arith, occurs-cons t b.slot k.holders, small)) (omega (arith, few))
Got-IsCache k d n s cs w nz few (recycled xs ys b e fresh behind free) =
    let c = claimed d n b in
    let x = Swapped-middle b c k.buffers xs ys e in
    swap-IsCache k b c (xs ++ c ∷ ys) (b.slot ∷ k.holders) w x refl
      (λ u v h. elim (Bool-cases (d == u && n == v)) [
        | inl same ↦
            let none_yet : total (is_block u v) k.buffers ≡ 0 =
              total-none (is_block u v) k.buffers (
                All-map (λ a. holds d n a ≡ false) (λ a. is_block u v a ≡ 0) k.buffers
                  (λ a f. ground (arith, f, same)) fresh) in
            ground (arith, none_yet)
        | inr other ↦ ground (arith, w.unique u v h, other)
      ])
      (λ t. ground (arith, occurs-cons t b.slot k.holders, free)) (omega (arith, few))

-- A change that keeps the slot, the block and the count.
pub kept-IsCache :
    (k : Cache) (s : ℕ) (b c : Buffer)
    → IsCache k
    → at s k.buffers ≡ some b
    → c.slot ≡ b.slot
    → c.dev ≡ b.dev
    → c.blockno ≡ b.blockno
    → c.refcnt ≡ b.refcnt
    → IsCache (record k { buffers = replace s c k.buffers })
kept-IsCache k s b c w h slot dev blockno refcnt =
    let f = at-Found s b k.buffers h in
    swap-IsCache k b c (replace s c k.buffers) k.holders w (f.replaced c) slot
      (λ u v nz. ground (arith, w.unique u v nz, dev, blockno)) (λ t. ground (arith, slot, refcnt))
      w.few

-- A holder gives its reference back.
pub dropped-IsCache :
    (k : Cache) (s : ℕ) (xs ys : List ℕ) (b c : Buffer) (cs : List Buffer)
    → IsCache k
    → k.holders ≡ xs ++ s ∷ ys
    → Swapped b c k.buffers cs
    → b.slot ≡ s
    → c.slot ≡ s
    → c.dev ≡ b.dev
    → c.blockno ≡ b.blockno
    → c.refcnt ≡ (b.refcnt + 2 ^ 32 - 1) % 2 ^ 32
    → IsCache (record { buffers = cs; holders = xs ++ ys })
dropped-IsCache k s xs ys b c cs w e x slot slot' dev blockno refcnt =
    let count = refcnt-occurs k b c cs w x in
    let mine : b.refcnt ≡ 1 + occurs s (xs ++ ys) =
      count
      ∙ ap (λ u. occurs u k.holders) slot
      ∙ (ground (arith, occurs-middle s s k.holders xs ys e)) in
    let small : b.refcnt < 2 ^ 32 = omega (arith, count, occurs-length b.slot k.holders, w.few) in
    let less : c.refcnt + 1 ≡ b.refcnt = omega (arith, refcnt, mine, small) in
    swap-IsCache k b c cs (xs ++ ys) w x (slot' ∙ sym slot)
      (λ u v nz. ground (arith, w.unique u v nz, dev, blockno))
      (λ t. ground (arith, occurs-middle t s k.holders xs ys e, slot, slot', less))
      (omega (arith, w.few, ap length e, length-append xs (s ∷ ys), length-append xs ys))

pub released-IsCache :
    (k : Cache) (me s : ℕ) (xs ys : List ℕ) (cs : List Buffer)
    → IsCache k
    → k.holders ≡ xs ++ s ∷ ys
    → brelse me s k.buffers ≡ ok cs
    → IsCache (record { buffers = cs; holders = xs ++ ys })
unfolding brelse
released-IsCache k me s xs ys cs w e r = elim (Option-cases (at s k.buffers)) [
  | inl lost ↦ absurd (cc (rw (brelse, lost) at r))
  | inr (b, h) ↦
      let f = at-Found s b k.buffers h in
      let c = record b { locked = false; pid = 0; refcnt = (b.refcnt + 2 ^ 32 - 1) % 2 ^ 32 } in
      elim (Bool-cases (holding_buffer me b)) [
        | inl mine ↦ elim (Bool-cases (c.refcnt == 0)) [
          | inl last ↦
              subst (λ q. IsCache (record { buffers = q; holders = xs ++ ys }))
                (ground (arith, rw (brelse, h) at r, mine, last))
                (dropped-IsCache k s xs ys b c (c ∷ unlink s k.buffers) w e (f.moved c) f.slot
                  f.slot refl refl refl)
          | inr more ↦
              subst (λ q. IsCache (record { buffers = q; holders = xs ++ ys }))
                (ground (arith, rw (brelse, h) at r, mine, more))
                (dropped-IsCache k s xs ys b c (replace s c k.buffers) w e (f.replaced c) f.slot
                  f.slot refl refl refl)
        ]
        | inr other ↦ absurd (ground (arith, rw (brelse, h) at r, other))
      ]
]
