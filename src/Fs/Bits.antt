-- ===== src/Fs/Bits.antt =====
-- Single bits of a number, for `v & (1 << k)`, `v | (1 << k)` and `v & ~(1 << k)`.
use csklub_os.Base.{ℕ, zero, suc, ◌+◌, ◌*◌, ◌/◌, ◌%◌, ◌<◌, ◌≡◌, ◌≢◌, refl, ap, arith}

unfoldable pub bit : ℕ → ℕ → ℕ
bit v zero = v % 2
bit v (suc k) = bit (v / 2) k

-- The number with bit `k` set to `x`.
unfoldable pub put_bit : ℕ → ℕ → ℕ → ℕ
put_bit v x zero = v / 2 * 2 + x
put_bit v x (suc k) = v % 2 + 2 * put_bit (v / 2) x k

pub bit-put_bit_same : (k v x : ℕ) → x < 2 → bit (put_bit v x k) k ≡ x
unfolding bit put_bit
bit-put_bit_same zero v x h = omega arith
bit-put_bit_same (suc k) v x h =
    let half : (v % 2 + 2 * put_bit (v / 2) x k) / 2 ≡ put_bit (v / 2) x k = omega arith in
    rw half (bit-put_bit_same k (v / 2) x h)

pub bit-put_bit_other : (k j v x : ℕ) → x < 2 → j ≢ k → bit (put_bit v x k) j ≡ bit v j
unfolding bit put_bit
bit-put_bit_other zero zero v x h ne = absurd (ne refl)
bit-put_bit_other zero (suc j) v x h ne =
    let half : (v / 2 * 2 + x) / 2 ≡ v / 2 = omega arith in rw half refl
bit-put_bit_other (suc k) zero v x h ne = omega arith
bit-put_bit_other (suc k) (suc j) v x h ne =
    let half : (v % 2 + 2 * put_bit (v / 2) x k) / 2 ≡ put_bit (v / 2) x k = omega arith in
    rw half (bit-put_bit_other k j (v / 2) x h (λ e. ne (ap suc e)))
