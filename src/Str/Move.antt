-- ===== src/Str/Move.antt =====
-- What `memmove` and `memset` leave in memory.
use csklub_os.Base.{
  ℕ, zero, suc, ◌+◌, ◌-◌, ◌%◌, ◌≤◌, ◌<◌, ◌≡◌, ◌≢◌, ◌⊎◌, inl, inr, refl, ◌∙◌, ap, arith, dec_lt,
  Bool-cases, ne→==, ltb, ◌&&◌,
}
use csklub_os.Memory.{Memory, store, IsBytes, store-IsBytes}
use csklub_os.Str.{copy_up, copy_down, memmove, memset_loop, memset}

-- `a` is none of the `n` addresses from `d` on.
abbrev pub Outside : ℕ → ℕ → ℕ → Type 0
Outside a d n = (a < d) ⊎ (d + n ≤ a)

pub store_mod : (m : Memory) (a v : ℕ) → store m a v a ≡ v % 256
unfolding store
store_mod m a v = ground arith

pub store_same : (m : Memory) (a v : ℕ) → v < 256 → store m a v a ≡ v
unfolding store
store_same m a v h = ground arith

pub store_other : (m : Memory) (a v b : ℕ) → b ≢ a → store m a v b ≡ m b
unfolding store
store_other m a v b h = ground arith

pub copy_up-Outside : (n : ℕ) (m : Memory) (d s a : ℕ) → Outside a d n → copy_up m d s n a ≡ m a
unfolding copy_up
copy_up-Outside zero m d s a o = refl
copy_up-Outside (suc n) m d s a o =
    copy_up-Outside n (store m d (m s)) (d + 1) (s + 1) a (omega arith)
    ∙ store_other m d (m s) a (omega arith)

copy_down_step :
    (n : ℕ) (m : Memory) (d s : ℕ)
    → copy_down m (d + suc n) (s + suc n) (suc n)
      ≡ copy_down (store m (d + n) (m (s + n))) (d + n) (s + n) n
unfolding copy_down
copy_down_step n m d s =
    let p : d + suc n - 1 ≡ d + n = omega arith in
    let q : s + suc n - 1 ≡ s + n = omega arith in
    λ i. copy_down (store m (p i) (m (q i))) (p i) (q i) n

pub copy_down-Outside :
    (n : ℕ) (m : Memory) (d s a : ℕ) → Outside a d n → copy_down m (d + n) (s + n) n a ≡ m a
unfolding copy_down
copy_down-Outside zero m d s a o = refl
copy_down-Outside (suc n) m d s a o =
    ap (λ (k : Memory). k a) (copy_down_step n m d s)
    ∙ copy_down-Outside n (store m (d + n) (m (s + n))) d s a (omega arith)
    ∙ store_other m (d + n) (m (s + n)) a (omega arith)

-- Upwards, the target does not begin inside the source.
pub copy_up-inside :
    (n : ℕ) (m : Memory) (d s i : ℕ)
    → IsBytes m
    → (d ≤ s) ⊎ (s + n ≤ d)
    → i < n
    → copy_up m d s n (d + i) ≡ m (s + i)
unfolding copy_up
copy_up-inside zero m d s i h apart lt = absurd (omega arith)
copy_up-inside (suc n) m d s zero h apart lt =
    copy_up-Outside n (store m d (m s)) (d + 1) (s + 1) (d + 0) (omega arith)
    ∙ ap (store m d (m s)) (omega arith)
    ∙ store_same m d (m s) (h s)
    ∙ ap m (omega arith)
copy_up-inside (suc n) m d s (suc i) h apart lt =
    ap (copy_up (store m d (m s)) (d + 1) (s + 1) n) (omega arith)
    ∙ copy_up-inside n (store m d (m s)) (d + 1) (s + 1) i (store-IsBytes m d (m s) h) (omega arith)
        (omega arith)
    ∙ store_other m d (m s) (s + 1 + i) (omega arith)
    ∙ ap m (omega arith)

-- Downwards, the source does not begin behind the target.
pub copy_down-inside :
    (n : ℕ) (m : Memory) (d s i : ℕ)
    → IsBytes m
    → s ≤ d
    → i < n
    → copy_down m (d + n) (s + n) n (d + i) ≡ m (s + i)
copy_down-inside zero m d s i h below lt = absurd (omega arith)
copy_down-inside (suc n) m d s i h below lt =
    ap (λ (k : Memory). k (d + i)) (copy_down_step n m d s) ∙ elim (dec_lt i n) [
      | yes p ↦
          copy_down-inside n (store m (d + n) (m (s + n))) d s i
            (store-IsBytes m (d + n) (m (s + n)) h) below p
          ∙ store_other m (d + n) (m (s + n)) (s + i) (omega arith)
      | no p ↦
          copy_down-Outside n (store m (d + n) (m (s + n))) d s (d + i) (omega arith)
          ∙ ap (store m (d + n) (m (s + n))) (omega arith)
          ∙ store_same m (d + n) (m (s + n)) (h (s + n))
          ∙ ap m (omega arith)
    ]

-- `memmove` puts the `n` bytes from `src` on at `dst`, however the two ranges overlap, and changes
-- no byte outside the target range.
pub memmove_lem :
    (m : Memory) (dst src n : ℕ)
    → IsBytes m
    → ((i : ℕ) → i < n → memmove m dst src n (dst + i) ≡ m (src + i))
      × ((a : ℕ) → Outside a dst n → memmove m dst src n a ≡ m a)
unfolding memmove
memmove_lem m dst src zero h = (λ i lt. absurd (omega arith), λ a o. refl)
memmove_lem m dst src (suc n) h = elim (Bool-cases (ltb src dst && ltb dst (src + suc n))) [
  | inl down ↦ (
    λ i lt.
        rw (ne→== (suc n) 0 (omega arith), down)
          (copy_down-inside (suc n) m dst src i h (ground arith) lt),
    λ a o. rw (ne→== (suc n) 0 (omega arith), down) (copy_down-Outside (suc n) m dst src a o),
  )
  | inr up ↦ (
    λ i lt.
        rw (ne→== (suc n) 0 (omega arith), up)
          (copy_up-inside (suc n) m dst src i h (ground arith) lt),
    λ a o. rw (ne→== (suc n) 0 (omega arith), up) (copy_up-Outside (suc n) m dst src a o),
  )
]

memset_loop-Outside :
    (left i dst c a : ℕ) (m : Memory)
    → Outside a (dst + i) left
    → memset_loop left i dst c m a ≡ m a
unfolding memset_loop
memset_loop-Outside zero i dst c a m o = refl
memset_loop-Outside (suc left) i dst c a m o =
    memset_loop-Outside left (i + 1) dst c a (store m (dst + i) c) (omega arith)
    ∙ store_other m (dst + i) c a (omega arith)

memset_loop-inside :
    (left i dst c k : ℕ) (m : Memory)
    → k < left
    → memset_loop left i dst c m (dst + i + k) ≡ c % 256
unfolding memset_loop
memset_loop-inside zero i dst c k m lt = absurd (omega arith)
memset_loop-inside (suc left) i dst c zero m lt =
    memset_loop-Outside left (i + 1) dst c (dst + i + 0) (store m (dst + i) c) (omega arith)
    ∙ ap (store m (dst + i) c) (omega arith)
    ∙ store_mod m (dst + i) c
memset_loop-inside (suc left) i dst c (suc k) m lt =
    ap (memset_loop left (i + 1) dst c (store m (dst + i) c)) (omega arith)
    ∙ memset_loop-inside left (i + 1) dst c k (store m (dst + i) c) (omega arith)

-- `memset` sets the `n` bytes from `dst` on to the low byte of `c`, and changes no other byte.
pub memset_lem :
    (m : Memory) (dst c n : ℕ)
    → ((i : ℕ) → i < n → memset m dst c n (dst + i) ≡ c % 256)
      × ((a : ℕ) → Outside a dst n → memset m dst c n a ≡ m a)
unfolding memset
memset_lem m dst c n = (
  λ i lt. ap (memset_loop n 0 dst c m) (omega arith) ∙ memset_loop-inside n 0 dst c i m lt,
  λ a o. memset_loop-Outside n 0 dst c a m (omega arith),
)
