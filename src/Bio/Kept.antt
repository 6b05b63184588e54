-- ===== src/Bio/Kept.antt =====
-- Every step of the kernel keeps the cache well-formed.
use csklub_os.Base.{
  ℕ, zero, suc, ◌+◌, ◌-◌, ◌%◌, ◌^◌, ◌<◌, ◌≡◌, ◌≢◌, refl, sym, ap, subst, arith, true, false, List,
  [], ◌∷◌, ◌++◌, All, All-map, length, some, ok, ◌==◌, Bool-cases, Option-cases, inl, inr,
}
use csklub_os.Bio.{
  Buffer, added, bget, at, replace, acquire_buffer, read_in, pin_buffer, unpin_buffer, binit,
  binit_loop, buffer_count,
}
use csklub_os.Bio.Get.{bget-Got}
use csklub_os.Bio.Totals.{
  total, is_slot, is_block, references, total-none, total-cons, at-none, at-Found,
}
use csklub_os.Bio.Held.{
  Cache, Step, gets, locks, reads, releases, pins, unpins, Reach, here, next, IsCache, occurs,
  occurs-length, occurs-cons, occurs-middle, swap-IsCache, refcnt-occurs,
}
use csklub_os.Bio.Unique.{Got-IsCache, kept-IsCache, dropped-IsCache, released-IsCache}

-- The pointer of a holder points to a buffer.
pub held-at :
    (k : Cache) (s : ℕ)
    → IsCache k
    → 0 < occurs s k.holders
    → (b : Buffer) × (at s k.buffers ≡ some b)
held-at k s w h = elim (Option-cases (at s k.buffers)) [
  | inl lost ↦ absurd (omega (arith, at-none s k.buffers lost, w.counted s, h))
  | inr found ↦ found
]

pinned-IsCache :
    (k : Cache) (s : ℕ)
    → IsCache k
    → 0 < occurs s k.holders
    → length k.holders + 1 < 2 ^ 32
    → IsCache (record { buffers = pin_buffer s k.buffers; holders = s ∷ k.holders })
unfolding pin_buffer
pinned-IsCache k s w h few =
    let (b, e) = held-at k s w h in
    let f = at-Found s b k.buffers e in
    let x = f.replaced (added b) in
    let count = refcnt-occurs k b (added b) (replace s (added b) k.buffers) w x in
    let small : b.refcnt + 1 < 2 ^ 32 = omega (arith, count, occurs-length b.slot k.holders, few) in
    rw (pin_buffer, e)
      (swap-IsCache k b (added b) (replace s (added b) k.buffers) (s ∷ k.holders) w x refl
        (λ u v nz. omega (arith, w.unique u v nz))
        (λ t. ground (arith, occurs-cons t s k.holders, small, f.slot)) (omega (arith, few)))

unpinned-IsCache :
    (k : Cache) (s : ℕ) (xs ys : List ℕ)
    → IsCache k
    → k.holders ≡ xs ++ s ∷ ys
    → IsCache (record { buffers = unpin_buffer s k.buffers; holders = xs ++ ys })
unfolding unpin_buffer
unpinned-IsCache k s xs ys w h =
    let (b, e) = held-at k s w (ground (arith, occurs-middle s s k.holders xs ys h)) in
    let f = at-Found s b k.buffers e in
    let c = record b { refcnt = (b.refcnt + 2 ^ 32 - 1) % 2 ^ 32 } in
    rw (unpin_buffer, e)
      (dropped-IsCache k s xs ys b c (replace s c k.buffers) w h (f.replaced c) f.slot f.slot refl
        refl refl)

got-IsCache :
    (k : Cache) (d n s : ℕ) (cs : List Buffer)
    → IsCache k
    → d ≢ 0
    → length k.holders + 1 < 2 ^ 32
    → bget d n k.buffers ≡ ok (s, cs)
    → IsCache (record { buffers = cs; holders = s ∷ k.holders })
got-IsCache k d n s cs w nz few e = elim (bget-Got d n k.buffers) [
  | inl (s', cs', e', g) ↦
      let q : ◌≡◌ {A = ℕ × List Buffer} (s', cs') (s, cs) = cc in
      subst (λ r. IsCache (record { buffers = r.1; holders = r.0 ∷ k.holders })) q
        (Got-IsCache k d n s' cs' w nz few g)
  | inr (stops, _, _) ↦ absurd (cc)
]

Step-IsCache : {k l : Cache} → IsCache k → Step k l → IsCache l
unfolding acquire_buffer read_in
Step-IsCache {k} w (gets d n s cs nz few e) = got-IsCache k d n s cs w nz few e
Step-IsCache {k} w (locks me s b c e h) = elim (Bool-cases b.locked) [
  | inl taken ↦ absurd (ground (arith, h, taken))
  | inr free ↦
      let q : record b { locked = true; pid = me } ≡ c = ground (arith, h, free) in
      kept-IsCache k s b c w e (ap (λ x. x.slot) (sym q)) (ap (λ x. x.dev) (sym q))
        (ap (λ x. x.blockno) (sym q)) (ap (λ x. x.refcnt) (sym q))
]
Step-IsCache {k} w (reads driver s b e) =
    kept-IsCache k s b (read_in driver b) w e (ground arith) (ground arith) (ground arith)
      (ground arith)
Step-IsCache {k} w (releases me s xs ys cs h e) = released-IsCache k me s xs ys cs w h e
Step-IsCache {k} w (pins s h few) = pinned-IsCache k s w h few
Step-IsCache {k} w (unpins s xs ys h) = unpinned-IsCache k s xs ys w h

-- Whatever steps the kernel takes from a well-formed cache, the cache stays well-formed: each buffer
-- is in the list once, no block of a device other than 0 is in two buffers, and each reference count
-- is the number of the buffer's holders.
pub Reach-IsCache : {k l : Cache} → IsCache k → Reach k l → IsCache l
Reach-IsCache w here = w
Reach-IsCache w (next r st) = Step-IsCache (Reach-IsCache w r) st

binit_loop-IsCache :
    (left i : ℕ) (bs : List Buffer)
    → IsCache (record { buffers = bs; holders = [] })
    → All (λ b. b.slot < i) bs
    → ((d n : ℕ) → d ≢ 0 → total (is_block d n) bs ≡ 0)
    → IsCache (record { buffers = binit_loop left i bs; holders = [] })
unfolding binit_loop
binit_loop-IsCache zero i bs w small none_yet = w
binit_loop-IsCache (suc left) i bs w small none_yet =
    binit_loop-IsCache left (i + 1) (b ∷ bs)
      (record {
        distinct = λ s. elim (Bool-cases (i == s)) [
          | inl same ↦
              let e : total (is_slot s) bs ≡ 0 = total-none (is_slot s) bs (
                All-map (λ a. a.slot < i) (λ a. is_slot s a ≡ 0) bs (λ a f. ground (arith, f, same))
                  small) in
              ground (arith, total-cons (is_slot s) b bs, e)
          | inr other ↦ ground (arith, total-cons (is_slot s) b bs, w.distinct s, other)
        ];
        unique = λ d n nz. ground (arith, total-cons (is_block d n) b bs, none_yet d n nz, nz);
        counted = λ s. ground (arith, total-cons (references s) b bs, w.counted s);
        few = w.few;
      })
      (
        omega arith,
        All-map (λ a. a.slot < i) (λ a. a.slot < i + 1) bs (λ a f. omega (arith, f)) small,
      )
      (λ d n nz. ground (arith, total-cons (is_block d n) b bs, none_yet d n nz, nz))
  where
    b : Buffer
    b = record {
      slot = i;
      dev = 0;
      blockno = 0;
      refcnt = 0;
      valid = false;
      locked = false;
      pid = 0;
      contents = λ w. 0;
    }

-- `binit` makes a well-formed cache without holders.
pub binit-IsCache : IsCache (record { buffers = binit; holders = [] })
unfolding binit total occurs
binit-IsCache =
    binit_loop-IsCache buffer_count 0 []
      (record {
        distinct = λ s. omega arith;
        unique = λ d n nz. omega arith;
        counted = λ s. refl;
        few = omega arith;
      })
      tt (λ d n nz. refl)
