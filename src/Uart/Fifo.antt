-- ===== src/Uart/Fifo.antt =====
-- The serial port as a channel from the writers of the console to the device.
use csklub_os.Base.{
  ℕ, ◌+◌, ◌%◌, ◌^◌, ◌<◌, ◌≡◌, refl, sym, ◌∙◌, ap, subst, arith, Bool, true, false, List, [], ◌∷◌,
  ◌++◌, some, inl, inr, Bool-cases,
}
use mathlib.Core.List.{append-nil, append_assoc}
use csklub_os.Console.{Console}
use csklub_os.Uart.{
  Uart, tx_size, Started, uartputc, uartintr, PutResult, spins, asleep, put_in, put_byte, is_full,
}
use csklub_os.Uart.Queue.{held, contents, IsValid, put_byte-IsValid, contents-put_byte}
use csklub_os.Uart.Start.{Sent, uartstart-Sent}

-- More rounds than the buffer has bytes.
abbrev pub rounds : ℕ
rounds = tx_size + 1

-- What `uartputc` comes to.
pub data Put (lsr : ℕ → ℕ) (panicked : Bool) (c : ℕ) (u : Uart) : PutResult → Type 0 where
  stuck : panicked ≡ true → Put lsr panicked c u spins
  full : panicked ≡ false → held u ≡ tx_size → Put lsr panicked c u asleep
  queued :
      (s : Started)
      → panicked ≡ false
      → held u < tx_size
      → contents u ++ c % 2 ^ 8 ∷ [] ≡ s.sent ++ contents s.uart
      → Sent lsr 0 (put_byte u c) s
      → Put lsr panicked c u (put_in s)

-- Without a panic `uartputc` returns or sleeps, the latter exactly if the buffer is full. It puts its
-- byte behind those that wait, and sends the oldest ones.
pub uartputc-Put :
    (lsr : ℕ → ℕ) (panicked : Bool) (c : ℕ) (u : Uart)
    → IsValid u
    → (r : PutResult) × (uartputc rounds lsr panicked c u ≡ some r) × Put lsr panicked c u r
unfolding uartputc
uartputc-Put lsr panicked c u v = elim (Bool-cases panicked) [
  | inl panics ↦ (spins, rw (uartputc, panics) refl, stuck panics)
  | inr runs ↦ elim (Bool-cases (is_full u)) [
    | inl no_room ↦ (
      asleep,
      rw (uartputc, runs, no_room) refl,
      full runs (ground (arith, v.read_small, v.write_small)),
    )
    | inr room ↦
        let valid = put_byte-IsValid u c v room in
        let (s, e, r) =
          uartstart-Sent rounds lsr 0 (put_byte u c) valid (omega (arith, valid.bounded)) in
        (
          put_in s,
          rw (uartputc, runs, room, e) refl,
          queued s runs (ground (arith, v.bounded)) (sym (contents-put_byte u c v room) ∙ r.bytes)
              r,
        )
  ]
]

-- The functions of the port in the order in which they get its lock, with the bytes that went into
-- the buffer and those that the device got.
pub data Runs : Uart → List ℕ → List ℕ → Uart → Type 0 where
  here : {u : Uart} → Runs u [] [] u
  puts :
      {u : Uart} (lsr : ℕ → ℕ) (panicked : Bool) (c : ℕ) (s : Started) (ins outs : List ℕ)
      (v : Uart)
      → uartputc rounds lsr panicked c u ≡ some (put_in s)
      → Runs s.uart ins outs v
      → Runs u (c % 2 ^ 8 ∷ ins) (s.sent ++ outs) v
  interrupts :
      {u : Uart} (lsr : ℕ → ℕ) (reads : List (ℕ × ℕ)) (k : Console) (x : Console × List ℕ)
      (s : Started) (ins outs : List ℕ) (v : Uart)
      → uartintr rounds lsr reads k u ≡ some (x, s)
      → Runs s.uart ins outs v
      → Runs u ins (s.sent ++ outs) v

puts-bytes :
    (lsr : ℕ → ℕ) (panicked : Bool) (c : ℕ) (u : Uart) (s : Started)
    → IsValid u
    → uartputc rounds lsr panicked c u ≡ some (put_in s)
    → (contents u ++ c % 2 ^ 8 ∷ [] ≡ s.sent ++ contents s.uart) × IsValid s.uart
puts-bytes lsr panicked c u s v h =
    let (r, e, p) = uartputc-Put lsr panicked c u v in
    let same : r ≡ put_in s = cc (e, h) in go r p same
  where
    go :
        (r : PutResult)
        → Put lsr panicked c u r
        → r ≡ put_in s
        → (contents u ++ c % 2 ^ 8 ∷ [] ≡ s.sent ++ contents s.uart) × IsValid s.uart
    go r (stuck panics) same = absurd (cc same)
    go r (full runs no_room) same = absurd (cc same)
    go r (queued t runs room bytes sent) same =
        let q : t ≡ s = cc same in
        subst (λ z. (contents u ++ c % 2 ^ 8 ∷ [] ≡ z.sent ++ contents z.uart) × IsValid z.uart) q
          (bytes, sent.valid)

interrupts-bytes :
    (lsr : ℕ → ℕ) (reads : List (ℕ × ℕ)) (k : Console) (x : Console × List ℕ) (u : Uart)
    (s : Started)
    → IsValid u
    → uartintr rounds lsr reads k u ≡ some (x, s)
    → (contents u ≡ s.sent ++ contents s.uart) × IsValid s.uart
unfolding uartintr
interrupts-bytes lsr reads k x u s v h =
    let (t, e, r) = uartstart-Sent rounds lsr 0 u v (omega (arith, v.bounded)) in
    let q : t ≡ s = cc (rw (uartintr, e) at h) in
    subst (λ z. (contents u ≡ z.sent ++ contents z.uart) × IsValid z.uart) q (r.bytes, r.valid)

-- In whatever order writers and interrupts get the lock, and however the 64-bit counters wrap, the
-- device gets the bytes that were in a valid buffer and all that are put into it in that order, and the
-- rest is what the buffer holds in the end.
pub Runs-fifo :
    (u v : Uart) (ins outs : List ℕ)
    → IsValid u
    → Runs u ins outs v
    → (contents u ++ ins ≡ outs ++ contents v) × IsValid v
Runs-fifo u v ins outs valid here = (append-nil (contents u), valid)
Runs-fifo u v ins outs valid (puts lsr panicked c s more sent w e r) =
    let (bytes, next) = puts-bytes lsr panicked c u s valid e in
    let later = Runs-fifo s.uart v more sent next r in
    (
      sym (append_assoc (contents u) (c % 2 ^ 8 ∷ []) more)
          ∙ ap (λ z. z ++ more) bytes
          ∙ append_assoc s.sent (contents s.uart) more
          ∙ ap (◌++◌ s.sent) later.0
          ∙ sym (append_assoc s.sent sent (contents v)),
      later.1,
    )
Runs-fifo u v ins outs valid (interrupts lsr reads k x s more sent w e r) =
    let (bytes, next) = interrupts-bytes lsr reads k x u s valid e in
    let later = Runs-fifo s.uart v more sent next r in
    (
      ap (λ z. z ++ more) bytes
          ∙ append_assoc s.sent (contents s.uart) more
          ∙ ap (◌++◌ s.sent) later.0
          ∙ sym (append_assoc s.sent sent (contents v)),
      later.1,
    )
