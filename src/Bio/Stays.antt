-- ===== src/Bio/Stays.antt =====
-- A buffer in use keeps its block.
use csklub_os.Base.{
  ℕ, ◌+◌, ◌-◌, ◌%◌, ◌^◌, ◌<◌, ◌≡◌, refl, sym, ap, subst, arith, true, false, ◌&&◌, List, ◌∷◌, ◌++◌,
  some, ok, ◌==◌, Bool-cases, Option-cases, inl, inr, if◌then◌else◌,
}
use csklub_os.Bio.{
  Buffer, holds, added, claimed, at, replace, unlink, acquire_buffer, read_in, brelse,
  holding_buffer, pin_buffer, unpin_buffer,
}
use csklub_os.Bio.Get.{Got, hit, recycled, bget-Got}
use csklub_os.Bio.Totals.{total, Swapped, Swapped-middle, at-Found}
use csklub_os.Bio.Held.{
  Cache, Step, gets, locks, reads, releases, pins, unpins, IsCache, occurs, refcnt-occurs,
  occurs-middle,
}
use csklub_os.Bio.Kept.{held-at}

-- Whether it is the slot's buffer, and holds the block.
abbrev pub caches : ℕ → ℕ → ℕ → Buffer → ℕ
caches s d n b = if b.slot == s && holds d n b then 1 else 0

abbrev pub Same : ℕ → ℕ → ℕ → List Buffer → List Buffer → Type 0
Same s d n bs cs = total (caches s d n) cs ≡ total (caches s d n) bs

swap-Same :
    (s d n : ℕ) (b c : Buffer) (bs cs : List Buffer)
    → Swapped b c bs cs
    → caches s d n c ≡ caches s d n b
    → Same s d n bs cs
swap-Same s d n b c bs cs x e = omega (arith, x.before (caches s d n), x.after (caches s d n), e)

Got-Same :
    (k : Cache) (s d n d' n' t : ℕ) (cs : List Buffer)
    → IsCache k
    → 0 < occurs s k.holders
    → Got d' n' k.buffers t cs
    → Same s d n k.buffers cs
Got-Same k s d n d' n' t cs w held (hit xs ys b e before same) =
    swap-Same s d n b (added b) k.buffers (xs ++ added b ∷ ys)
      (Swapped-middle b (added b) k.buffers xs ys e) refl
Got-Same k s d n d' n' t cs w held (recycled xs ys b e fresh behind free) =
    let c = claimed d' n' b in
    let x = Swapped-middle b c k.buffers xs ys e in
    let count = refcnt-occurs k b c (xs ++ c ∷ ys) w x in
    let other : (b.slot == s) ≡ false = elim (Bool-cases (b.slot == s)) [
      | inl same ↦
          let p : b.slot ≡ s = ground (arith, same) in
          absurd (omega (arith, count, free, held, ap (λ u. occurs u k.holders) p))
      | inr e ↦ e
    ] in
    swap-Same s d n b c k.buffers (xs ++ c ∷ ys) x (ground (arith, other))

replaced-Same :
    (k : Cache) (s d n t : ℕ) (b c : Buffer)
    → at t k.buffers ≡ some b
    → caches s d n c ≡ caches s d n b
    → Same s d n k.buffers (replace t c k.buffers)
replaced-Same k s d n t b c h e =
    swap-Same s d n b c k.buffers (replace t c k.buffers) ((at-Found t b k.buffers h).replaced c) e

released-Same :
    (k : Cache) (s d n me t : ℕ) (cs : List Buffer)
    → brelse me t k.buffers ≡ ok cs
    → Same s d n k.buffers cs
unfolding brelse
released-Same k s d n me t cs r = elim (Option-cases (at t k.buffers)) [
  | inl lost ↦ absurd (cc (rw (brelse, lost) at r))
  | inr (b, h) ↦
      let f = at-Found t b k.buffers h in
      let c = record b { locked = false; pid = 0; refcnt = (b.refcnt + 2 ^ 32 - 1) % 2 ^ 32 } in
      elim (Bool-cases (holding_buffer me b)) [
        | inl mine ↦ elim (Bool-cases (c.refcnt == 0)) [
          | inl last ↦
              subst (Same s d n k.buffers) (ground (arith, rw (brelse, h) at r, mine, last))
                (swap-Same s d n b c k.buffers (c ∷ unlink t k.buffers) (f.moved c) refl)
          | inr more ↦
              subst (Same s d n k.buffers) (ground (arith, rw (brelse, h) at r, mine, more))
                (swap-Same s d n b c k.buffers (replace t c k.buffers) (f.replaced c) refl)
        ]
        | inr other ↦ absurd (ground (arith, rw (brelse, h) at r, other))
      ]
]

-- In a step of the kernel from a well-formed cache, whoever takes it, a buffer with a holder
-- keeps the block that it has.
pub Step-Same :
    {k l : Cache} (s d n : ℕ)
    → IsCache k
    → 0 < occurs s k.holders
    → Step k l
    → Same s d n k.buffers l.buffers
unfolding acquire_buffer read_in pin_buffer unpin_buffer
Step-Same {k} s d n w held (gets d' n' t cs nz few e) = elim (bget-Got d' n' k.buffers) [
  | inl (t', cs', e', g) ↦
      let q : ◌≡◌ {A = ℕ × List Buffer} (t', cs') (t, cs) = cc in
      subst (λ r. Same s d n k.buffers r.1) q (Got-Same k s d n d' n' t' cs' w held g)
  | inr (stops, _, _) ↦ absurd (cc)
]
Step-Same {k} s d n w held (locks me t b c e h) = elim (Bool-cases b.locked) [
  | inl taken ↦ absurd (ground (arith, h, taken))
  | inr free ↦
      let q : record b { locked = true; pid = me } ≡ c = ground (arith, h, free) in
      replaced-Same k s d n t b c e (ap (caches s d n) (sym q))
]
Step-Same {k} s d n w held (reads driver t b e) =
    replaced-Same k s d n t b (read_in driver b) e (ground arith)
Step-Same {k} s d n w held (releases me t xs ys cs h e) = released-Same k s d n me t cs e
Step-Same {k} s d n w held (pins t h few) =
    let (b, e) = held-at k t w h in rw (pin_buffer, e) (replaced-Same k s d n t b (added b) e refl)
Step-Same {k} s d n w held (unpins t xs ys h) =
    let (b, e) = held-at k t w (ground (arith, occurs-middle t t k.holders xs ys h)) in
    rw (unpin_buffer, e)
      (replaced-Same k s d n t b (record b { refcnt = (b.refcnt + 2 ^ 32 - 1) % 2 ^ 32 }) e refl)
