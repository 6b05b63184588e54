-- ===== src/Memory.antt =====
-- Byte-addressed memory, which the C string routines and the page allocator work on. An address is
-- a number, and a byte is a number below 256: a store keeps the low byte of its value, as a store
-- to a `char` does.
use csklub_os.Base.{
  ℕ, zero, suc, ◌+◌, ◌*◌, ◌%◌, ◌/◌, ◌^◌, ◌≤◌, ◌<◌, ◌≡◌, ◌⊎◌, refl, ap, ◌∙◌, arith, ◌==◌,
  if◌then◌else◌,
}

abbrev pub Memory : Type 0
Memory = ℕ → ℕ

unfoldable pub store : Memory → ℕ → ℕ → Memory
store m a v = λ b. if b == a then v % 256 else m b

-- Every byte of the memory is one.
abbrev pub IsBytes : Memory → Type 0
IsBytes m = (a : ℕ) → m a < 256

pub store_at : (m : Memory) (a v b : ℕ) → store m a v b ≡ (if b == a then v % 256 else m b)
unfolding store
store_at m a v b = refl

pub store-IsBytes : (m : Memory) (a v : ℕ) → IsBytes m → IsBytes (store m a v)
unfolding store
store-IsBytes m a v h b = ground (arith, h b)

-- The number that `n` bytes stand for, the lowest first.
unfoldable pub read_bytes : ℕ → Memory → ℕ → ℕ
read_bytes zero m a = 0
read_bytes (suc n) m a = m a + 256 * read_bytes n m (a + 1)

-- A `uint64` in memory, little-endian.
unfoldable pub read64 : Memory → ℕ → ℕ
unfolding read_bytes
read64 m a = read_bytes 8 m a

-- `n` bytes of `v`, the lowest first.
unfoldable pub write_bytes : ℕ → Memory → ℕ → ℕ → Memory
write_bytes zero m a v = m
write_bytes (suc n) m a v = write_bytes n (store m a v) (a + 1) (v / 256)

unfoldable pub write64 : Memory → ℕ → ℕ → Memory
unfolding write_bytes
write64 m a v = write_bytes 8 m a v

write_bytes-outside :
    (n : ℕ) (m : Memory) (a v b : ℕ) → (b < a) ⊎ (a + n ≤ b) → write_bytes n m a v b ≡ m b
unfolding write_bytes
write_bytes-outside zero m a v b o = refl
write_bytes-outside (suc n) m a v b o =
    ground (
      arith,
      write_bytes-outside n (store m a v) (a + 1) (v / 256) b (omega arith),
      store_at m a v b,
    )

pub write64-outside : (m : Memory) (a v b : ℕ) → (b < a) ⊎ (a + 8 ≤ b) → write64 m a v b ≡ m b
unfolding write64
write64-outside m a v b o = write_bytes-outside 8 m a v b o

read_bytes-agree :
    (n : ℕ) (m m' : Memory) (a : ℕ)
    → ((k : ℕ) → k < n → m (a + k) ≡ m' (a + k))
    → read_bytes n m a ≡ read_bytes n m' a
unfolding read_bytes
read_bytes-agree zero m m' a h = refl
read_bytes-agree (suc n) m m' a h =
    let first : m a ≡ m' a = ap m (omega arith) ∙ h 0 (omega arith) ∙ ap m' (omega arith) in
    omega (
      arith,
      first,
      read_bytes-agree n m m' (a + 1)
          (λ k lt. ap m (omega arith) ∙ h (suc k) (omega arith) ∙ ap m' (omega arith)),
    )

pub read64-agree :
    (m m' : Memory) (a : ℕ) → ((k : ℕ) → k < 8 → m (a + k) ≡ m' (a + k)) → read64 m a ≡ read64 m' a
unfolding read64
read64-agree m m' a h = read_bytes-agree 8 m m' a h

bytes_limit : ℕ → ℕ
bytes_limit zero = 1
bytes_limit (suc n) = 256 * bytes_limit n

read_bytes-write_bytes :
    (n : ℕ) (m : Memory) (a v : ℕ) → v < bytes_limit n → read_bytes n (write_bytes n m a v) a ≡ v
unfolding read_bytes write_bytes bytes_limit
read_bytes-write_bytes zero m a v h = omega arith
read_bytes-write_bytes (suc n) m a v h = ground (
  arith,
  read_bytes-write_bytes n (store m a v) (a + 1) (v / 256) (omega arith),
  write_bytes-outside n (store m a v) (a + 1) (v / 256) a (omega arith),
  store_at m a v a,
)

-- What is written is read back.
pub read64-write64 : (m : Memory) (a v : ℕ) → v < 2 ^ 64 → read64 (write64 m a v) a ≡ v
unfolding read64 write64 bytes_limit
read64-write64 m a v h = read_bytes-write_bytes 8 m a v h

write_bytes-IsBytes : (n : ℕ) (m : Memory) (a v : ℕ) → IsBytes m → IsBytes (write_bytes n m a v)
unfolding write_bytes
write_bytes-IsBytes zero m a v h = h
write_bytes-IsBytes (suc n) m a v h =
    write_bytes-IsBytes n (store m a v) (a + 1) (v / 256) (store-IsBytes m a v h)

pub write64-IsBytes : (m : Memory) (a v : ℕ) → IsBytes m → IsBytes (write64 m a v)
unfolding write64
write64-IsBytes m a v h = write_bytes-IsBytes 8 m a v h
