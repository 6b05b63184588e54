-- ===== src/Str/Copy.antt =====
-- What `strncpy` and `safestrcpy` leave in the target.
use csklub_os.Base.{
  ℕ, zero, suc, ◌+◌, ◌≤◌, ◌<◌, ◌≡◌, ◌≢◌, ◌⊎◌, inl, inr, refl, ◌∙◌, ap, arith, Bool-cases, ◌!=◌,
  if◌then◌else◌, pos,
}
use csklub_os.Memory.{Memory, store, IsBytes, store-IsBytes}
use csklub_os.Str.{pad, copy_pad, strncpy, copy_terminate, safestrcpy}
use csklub_os.Str.Move.{Outside, store_same, store_other}

-- The number of bytes at `t` before the first NUL, at most `n`.
unfoldable pub text_length : Memory → ℕ → ℕ → ℕ
text_length m t zero = 0
text_length m t (suc n) = if m t != 0 then suc (text_length m (t + 1) n) else 0

-- The `n` bytes from `s` on and those from `t` on have no byte in common.
abbrev pub Apart : ℕ → ℕ → ℕ → Type 0
Apart s t n = (s + n ≤ t) ⊎ (t + n ≤ s)

text_length-store :
    (n : ℕ) (m : Memory) (t s v : ℕ)
    → Outside s t n
    → text_length (store m s v) t n ≡ text_length m t n
unfolding text_length
text_length-store zero m t s v o = refl
text_length-store (suc n) m t s v o =
    ground
      (arith, store_other m s v t (omega arith), text_length-store n m (t + 1) s v (omega arith))

text_length-le : (n : ℕ) (m : Memory) (t : ℕ) → text_length m t n ≤ n
unfolding text_length
text_length-le zero m t = omega arith
text_length-le (suc n) m t = ground (arith, text_length-le n m (t + 1))

-- A byte of the source that is still to be copied is not the target's first.
rest-Apart :
    (n : ℕ) (m : Memory) (s t i : ℕ)
    → Apart s t (suc n)
    → suc i < suc (text_length m (t + 1) n)
    → t + 1 + i ≢ s
rest-Apart n m s t i apart lt = omega (arith, text_length-le n m (t + 1))

pad-Outside : (n : ℕ) (m : Memory) (s a : ℕ) → Outside a s n → pad m s n a ≡ m a
unfolding pad
pad-Outside zero m s a o = refl
pad-Outside (suc n) m s a o =
    pad-Outside n (store m s 0) (s + 1) a (omega arith) ∙ store_other m s 0 a (omega arith)

pad-inside : (n : ℕ) (m : Memory) (s i : ℕ) → i < n → pad m s n (s + i) ≡ 0
unfolding pad
pad-inside zero m s i lt = absurd (omega arith)
pad-inside (suc n) m s zero lt =
    pad-Outside n (store m s 0) (s + 1) (s + 0) (omega arith)
    ∙ ap (store m s 0) (omega arith)
    ∙ store_same m s 0 (omega arith)
pad-inside (suc n) m s (suc i) lt =
    ap (pad (store m s 0) (s + 1) n) (omega arith)
    ∙ pad-inside n (store m s 0) (s + 1) i (omega arith)

copy_pad-Outside : (n : ℕ) (m : Memory) (s t a : ℕ) → Outside a s n → copy_pad m s t n a ≡ m a
unfolding copy_pad
copy_pad-Outside zero m s t a o = refl
copy_pad-Outside (suc n) m s t a o = ground (
  arith,
  copy_pad-Outside n (store m s (m t)) (s + 1) (t + 1) a (omega arith),
  pad-Outside n (store m s (m t)) (s + 1) a (omega arith),
  store_other m s (m t) a (omega arith),
)

copy_pad-text :
    (n : ℕ) (m : Memory) (s t i : ℕ)
    → IsBytes m
    → Apart s t n
    → i < text_length m t n
    → copy_pad m s t n (s + i) ≡ m (t + i)
unfolding copy_pad text_length
copy_pad-text zero m s t i h apart lt = absurd (omega arith)
copy_pad-text (suc n) m s t zero h apart lt = elim (Bool-cases (m t != 0)) [
  | inl more ↦ rw more (
      copy_pad-Outside n (store m s (m t)) (s + 1) (t + 1) (s + 0) (omega arith)
      ∙ ap (store m s (m t)) (omega arith)
      ∙ store_same m s (m t) (h t)
      ∙ ap m (omega arith))
  | inr stop ↦ absurd (ground arith)
]
copy_pad-text (suc n) m s t (suc i) h apart lt = elim (Bool-cases (m t != 0)) [
  | inl more ↦ rw more (
      ap (copy_pad (store m s (m t)) (s + 1) (t + 1) n) (omega arith)
      ∙ copy_pad-text n (store m s (m t)) (s + 1) (t + 1) i (store-IsBytes m s (m t) h)
          (omega arith) (ground (arith, text_length-store n m (t + 1) s (m t)))
      ∙ store_other m s (m t) (t + 1 + i) (rest-Apart n m s t i apart (rw more at lt))
      ∙ ap m (omega arith))
  | inr stop ↦ absurd (ground arith)
]

copy_pad-rest :
    (n : ℕ) (m : Memory) (s t i : ℕ)
    → IsBytes m
    → Apart s t n
    → text_length m t n ≤ i
    → i < n
    → copy_pad m s t n (s + i) ≡ 0
unfolding copy_pad text_length
copy_pad-rest zero m s t i h apart le lt = absurd (omega arith)
copy_pad-rest (suc n) m s t zero h apart le lt = elim (Bool-cases (m t != 0)) [
  | inl more ↦ absurd (ground arith)
  | inr stop ↦ rw stop (
      pad-Outside n (store m s (m t)) (s + 1) (s + 0) (omega arith)
      ∙ ap (store m s (m t)) (omega arith)
      ∙ store_same m s (m t) (h t)
      ∙ ground arith)
]
copy_pad-rest (suc n) m s t (suc i) h apart le lt = elim (Bool-cases (m t != 0)) [
  | inl more ↦ rw more (
      ap (copy_pad (store m s (m t)) (s + 1) (t + 1) n) (omega arith)
      ∙ copy_pad-rest n (store m s (m t)) (s + 1) (t + 1) i (store-IsBytes m s (m t) h)
          (omega arith) (ground (arith, text_length-store n m (t + 1) s (m t))) (omega arith))
  | inr stop ↦ rw stop (
      ap (pad (store m s (m t)) (s + 1) n) (omega arith)
      ∙ pad-inside n (store m s (m t)) (s + 1) i (omega arith))
]

-- `strncpy` copies the bytes before the source's NUL, at most `n` of them, fills the rest of the
-- `n` bytes of the target with NULs, and changes nothing else, if the two ranges are apart.
pub strncpy_lem :
    (m : Memory) (s t n : ℕ)
    → IsBytes m
    → Apart s t n
    → ((i : ℕ) → i < text_length m t n → strncpy m s t (pos n) (s + i) ≡ m (t + i))
      × ((i : ℕ) → text_length m t n ≤ i → i < n → strncpy m s t (pos n) (s + i) ≡ 0)
      × ((a : ℕ) → Outside a s n → strncpy m s t (pos n) a ≡ m a)
unfolding strncpy
strncpy_lem m s t n h apart = (
  λ i lt. copy_pad-text n m s t i h apart lt,
  λ i le lt. copy_pad-rest n m s t i h apart le lt,
  λ a o. copy_pad-Outside n m s t a o,
)

copy_terminate-Outside :
    (n : ℕ) (m : Memory) (s t a : ℕ) → Outside a s (suc n) → copy_terminate m s t n a ≡ m a
unfolding copy_terminate
copy_terminate-Outside zero m s t a o = store_other m s 0 a (omega arith)
copy_terminate-Outside (suc n) m s t a o = ground (
  arith,
  copy_terminate-Outside n (store m s (m t)) (s + 1) (t + 1) a (omega arith),
  store_other (store m s (m t)) (s + 1) 0 a (omega arith),
  store_other m s (m t) a (omega arith),
)

copy_terminate-text :
    (n : ℕ) (m : Memory) (s t i : ℕ)
    → IsBytes m
    → Apart s t n
    → i < text_length m t n
    → copy_terminate m s t n (s + i) ≡ m (t + i)
unfolding copy_terminate text_length
copy_terminate-text zero m s t i h apart lt = absurd (omega arith)
copy_terminate-text (suc n) m s t zero h apart lt = elim (Bool-cases (m t != 0)) [
  | inl more ↦ rw more (
      copy_terminate-Outside n (store m s (m t)) (s + 1) (t + 1) (s + 0) (omega arith)
      ∙ ap (store m s (m t)) (omega arith)
      ∙ store_same m s (m t) (h t)
      ∙ ap m (omega arith))
  | inr stop ↦ absurd (ground arith)
]
copy_terminate-text (suc n) m s t (suc i) h apart lt = elim (Bool-cases (m t != 0)) [
  | inl more ↦ rw more (
      ap (copy_terminate (store m s (m t)) (s + 1) (t + 1) n) (omega arith)
      ∙ copy_terminate-text n (store m s (m t)) (s + 1) (t + 1) i (store-IsBytes m s (m t) h)
          (omega arith) (ground (arith, text_length-store n m (t + 1) s (m t)))
      ∙ store_other m s (m t) (t + 1 + i) (rest-Apart n m s t i apart (rw more at lt))
      ∙ ap m (omega arith))
  | inr stop ↦ absurd (ground arith)
]

copy_terminate-end :
    (n : ℕ) (m : Memory) (s t : ℕ)
    → IsBytes m
    → Apart s t n
    → copy_terminate m s t n (s + text_length m t n) ≡ 0
unfolding copy_terminate text_length
copy_terminate-end zero m s t h apart =
    ap (store m s 0) (omega arith) ∙ store_same m s 0 (omega arith)
copy_terminate-end (suc n) m s t h apart = elim (Bool-cases (m t != 0)) [
  | inl more ↦ rw more (
      ap (copy_terminate (store m s (m t)) (s + 1) (t + 1) n)
        (omega (arith, text_length-store n m (t + 1) s (m t) (omega arith)))
      ∙ copy_terminate-end n (store m s (m t)) (s + 1) (t + 1) (store-IsBytes m s (m t) h)
          (omega arith))
  | inr stop ↦ rw stop (
      store_other (store m s (m t)) (s + 1) 0 (s + 0) (omega arith)
      ∙ ap (store m s (m t)) (omega arith)
      ∙ store_same m s (m t) (h t)
      ∙ ground arith)
]

-- `safestrcpy` with room for `n + 1` bytes copies the bytes before the source's NUL, at most `n` of
-- them, puts a NUL behind the last one copied, and writes only to the `n + 1` bytes of the target,
-- if these are apart from the source's.
pub safestrcpy_lem :
    (m : Memory) (s t n : ℕ)
    → IsBytes m
    → Apart s t n
    → ((i : ℕ) → i < text_length m t n → safestrcpy m s t (pos (suc n)) (s + i) ≡ m (t + i))
      × (safestrcpy m s t (pos (suc n)) (s + text_length m t n) ≡ 0)
      × ((a : ℕ) → Outside a s (suc n) → safestrcpy m s t (pos (suc n)) a ≡ m a)
unfolding safestrcpy
safestrcpy_lem m s t n h apart = (
  λ i lt. copy_terminate-text n m s t i h apart lt,
  copy_terminate-end n m s t h apart,
  λ a o. copy_terminate-Outside n m s t a o,
)
