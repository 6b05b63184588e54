-- ===== src/Uart/Queue.antt =====
-- The transmit buffer as a queue of at most UART_TX_BUF_SIZE bytes.
use csklub_os.Base.{
  ℕ, zero, suc, ◌+◌, ◌-◌, ◌%◌, ◌^◌, ◌≤◌, ◌<◌, ◌≡◌, ◌∙◌, ap, arith, true, false, List, [], ◌∷◌, ◌++◌,
  ◌==◌, eq→==, ne→==, if◌then◌else◌,
}
use csklub_os.Uart.{Uart, tx_size, put_byte, front_byte, next_byte, is_full, is_empty}

-- The number of bytes held: the difference of two counters that wrap.
abbrev pub held : Uart → ℕ
held u = (u.tx_w + 2 ^ 64 - u.tx_r) % 2 ^ 64

-- The `n` bytes from the counter value `r` on.
abbrev pub queued : (ℕ → ℕ) → ℕ → ℕ → List ℕ
queued buf r zero = []
queued buf r (suc n) = buf (r % tx_size) ∷ queued buf ((r + 1) % 2 ^ 64) n

-- The bytes held, the oldest first.
abbrev pub contents : Uart → List ℕ
contents u = queued u.tx_buf u.tx_r (held u)

pub record IsValid (u : Uart) : Type 0 where
  pub read_small : u.tx_r < 2 ^ 64
  pub write_small : u.tx_w < 2 ^ 64
  pub bounded : held u ≤ tx_size

-- A write at the slot behind the queue adds its byte to it.
queued-put_byte :
    (buf : ℕ → ℕ) (w c n r : ℕ)
    → n < tx_size
    → r < 2 ^ 64
    → w ≡ (r + n) % 2 ^ 64
    → queued (λ k. if k == w % tx_size then c else buf k) r (suc n) ≡ queued buf r n ++ c ∷ []
queued-put_byte buf w c zero r lt small e = rw (eq→== (r % tx_size) (w % tx_size) (omega arith))
queued-put_byte buf w c (suc n) r lt small e =
    rw (ne→== (r % tx_size) (w % tx_size) (omega arith)) (
      ap (◌∷◌ (buf (r % tx_size)))
        (queued-put_byte buf w c n ((r + 1) % 2 ^ 64) (omega arith) (omega arith) (omega arith)))

pub put_byte-IsValid : (u : Uart) (c : ℕ) → IsValid u → is_full u ≡ false → IsValid (put_byte u c)
unfolding put_byte
put_byte-IsValid u c v f = ground arith

pub contents-put_byte :
    (u : Uart) (c : ℕ)
    → IsValid u
    → is_full u ≡ false
    → contents (put_byte u c) ≡ contents u ++ c % 2 ^ 8 ∷ []
unfolding put_byte
contents-put_byte u c v f =
    let more : held (put_byte u c) ≡ suc (held u) = ground arith in
    ap (queued (put_byte u c).tx_buf u.tx_r) more
    ∙ queued-put_byte u.tx_buf u.tx_w (c % 2 ^ 8) (held u) u.tx_r (ground arith) v.read_small
        (ground arith)

pub next_byte-IsValid : (u : Uart) → IsValid u → is_empty u ≡ false → IsValid (next_byte u)
unfolding next_byte
next_byte-IsValid u v f = ground arith

pub held-next_byte : (u : Uart) → IsValid u → is_empty u ≡ false → held u ≡ suc (held (next_byte u))
unfolding next_byte
held-next_byte u v f = ground arith

pub contents-next_byte :
    (u : Uart) → IsValid u → is_empty u ≡ false → contents u ≡ front_byte u ∷ contents (next_byte u)
unfolding next_byte front_byte
contents-next_byte u v f = ap (queued u.tx_buf u.tx_r) (held-next_byte u v f)

pub contents-empty : (u : Uart) → IsValid u → is_empty u ≡ true → contents u ≡ []
contents-empty u v e = let z : held u ≡ 0 = ground arith in ap (queued u.tx_buf u.tx_r) z
