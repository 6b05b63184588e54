-- ===== src/Uart.antt =====
-- operating_system_engineering/labs/kernel/uart.c: the transmit buffer of the serial port. `uart_tx_w` and
-- `uart_tx_r` are 64-bit counters that wrap. `uart_tx_lock` makes a function one step, up to where it
-- sleeps, to be called again. The device is the values that its status register LSR gives, one for each read
-- of it. Writes to the register THR are the result.
pub mod Queue
pub mod Start
pub mod Fifo
mod Tests
use csklub_os.Base.{
  ℕ, zero, suc, ◌+◌, ◌/◌, ◌%◌, ◌^◌, Bool, true, false, List, [], ◌∷◌, ◌++◌, Option, none, some,
  ◌==◌, if◌then◌else◌,
}
use csklub_os.Console.{Console, Handled, consoleintr}

-- UART_TX_BUF_SIZE.
abbrev pub tx_size : ℕ
tx_size = 32

pub record Uart : Type 0 where
  pub tx_buf : ℕ → ℕ
  pub tx_w : ℕ
  pub tx_r : ℕ

-- `ReadReg(LSR) & LSR_TX_IDLE`: bit 5.
abbrev pub is_idle : ℕ → Bool
is_idle status = status / 2 ^ 5 % 2 == 1

abbrev pub is_full : Uart → Bool
is_full u = u.tx_w == (u.tx_r + tx_size) % 2 ^ 64

abbrev pub is_empty : Uart → Bool
is_empty u = u.tx_w == u.tx_r

-- `uart_tx_buf[uart_tx_w % UART_TX_BUF_SIZE] = c; uart_tx_w += 1;`
unfoldable pub put_byte : Uart → ℕ → Uart
put_byte u c = record u {
  tx_buf = λ k. if k == u.tx_w % tx_size then c % 2 ^ 8 else u.tx_buf k;
  tx_w = (u.tx_w + 1) % 2 ^ 64;
}

unfoldable pub front_byte : Uart → ℕ
front_byte u = u.tx_buf (u.tx_r % tx_size)

unfoldable pub next_byte : Uart → Uart
next_byte u = record u { tx_r = (u.tx_r + 1) % 2 ^ 64 }

-- `sent` is what was written to THR, in order, and `woken` tells whether those who wait for space were woken.
pub record Started : Type 0 where
  pub uart : Uart
  pub sent : List ℕ
  pub woken : Bool

abbrev pub also_sent : ℕ → Started → Started
also_sent c s = record s { sent = c ∷ s.sent; woken = true }

-- `while(1)`: `lsr i` is the status at the i-th read, `k` of which are past. `none`: out of fuel.
unfoldable pub uartstart : ℕ → (ℕ → ℕ) → ℕ → Uart → Option Started
unfolding front_byte next_byte
uartstart zero lsr k u = none
uartstart (suc fuel) lsr k u =
    let rest = uartstart fuel lsr (k + 1) (next_byte u) in
    if is_empty u
    then some (record { uart = u; sent = []; woken = false })
    else if is_idle (lsr k)
    then elim rest [ none ↦ none | some s ↦ some (also_sent (front_byte u) s) ]
    else some (record { uart = u; sent = []; woken = false })

-- `spins`: another processor has panicked, and the function never returns.
pub data PutResult : Type 0 where
  spins asleep : PutResult
  put_in : Started → PutResult

-- `none`: out of fuel.
unfoldable pub uartputc : ℕ → (ℕ → ℕ) → Bool → ℕ → Uart → Option PutResult
unfolding put_byte uartstart
uartputc fuel lsr panicked c u =
    if panicked
    then some spins
    else if is_full u
    then some asleep
    else elim (uartstart fuel lsr 0 (put_byte u c)) [ none ↦ none | some s ↦ some (put_in s) ]

-- `none` is -1. The second argument is what RHR would give.
unfoldable pub uartgetc : ℕ → ℕ → Option ℕ
uartgetc status rhr = if status % 2 == 1 then some rhr else none

-- The loop over the characters that arrived, with the echoes of `consoleintr`: `reads` goes on to the first
-- status that has no character.
unfoldable pub receive : List (ℕ × ℕ) → Console → Console × List ℕ
unfolding uartgetc
receive [] k = (k, [])
receive ((status, rhr) ∷ reads) k = elim (uartgetc status rhr) [
  | none ↦ (k, [])
  | some c ↦
      let h = consoleintr c k in let rest = receive reads h.console in (rest.0, h.echo ++ rest.1)
]

-- `reads` has what LSR and RHR give in turn.
unfoldable pub uartintr :
    ℕ → (ℕ → ℕ) → List (ℕ × ℕ) → Console → Uart → Option ((Console × List ℕ) × Started)
unfolding receive uartstart
uartintr fuel lsr reads k u = elim (uartstart fuel lsr 0 u) [
  | none ↦ none
  | some s ↦ some (receive reads k, s)
]
