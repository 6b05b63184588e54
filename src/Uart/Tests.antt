-- ===== src/Uart/Tests.antt =====
-- A transmit buffer with two bytes, whose reading counter is about to wrap.
use csklub_os.Base.{
  ℕ, ◌+◌, ◌-◌, ◌^◌, ◌≡◌, refl, arith, true, false, [], ◌∷◌, ◌++◌, some, ◌==◌, if◌then◌else◌,
}
use csklub_os.Uart.{Uart, Started, uartstart, uartputc, put_in, put_byte, front_byte, next_byte}
use csklub_os.Uart.Queue.{contents, IsValid}
use csklub_os.Uart.Start.{Sent, uartstart-Sent}
use csklub_os.Uart.Fifo.{rounds, Runs, here, puts, Runs-fifo}

abbrev two_waiting : Uart
two_waiting = record { tx_buf = λ k. k + 65; tx_w = 1; tx_r = 2 ^ 64 - 1 }

two_waiting-IsValid : IsValid two_waiting
two_waiting-IsValid = record {
  read_small = omega arith;
  write_small = omega arith;
  bounded = omega arith;
}

-- Idle for one byte, then busy.
abbrev idle_once : ℕ → ℕ
idle_once k = if k == 0 then 32 else 0

uartstart-Sent_example :
    (s : Started) × (uartstart 3 idle_once 0 two_waiting ≡ some s) × Sent idle_once 0 two_waiting s
uartstart-Sent_example = uartstart-Sent 3 idle_once 0 two_waiting two_waiting-IsValid (omega arith)

abbrev one_sent : Uart
one_sent = next_byte (put_byte two_waiting 300)

-- The oldest byte, at slot 31, goes to the device.
uartputc_run :
    uartputc rounds idle_once false 300 two_waiting
    ≡ some (put_in (record { uart = one_sent; sent = 96 ∷ []; woken = true }))
unfolding uartputc uartstart put_byte front_byte next_byte
uartputc_run = refl

two_waiting-Runs : Runs two_waiting (44 ∷ []) (96 ∷ []) one_sent
two_waiting-Runs =
    puts idle_once false 300 (record { uart = one_sent; sent = 96 ∷ []; woken = true }) [] []
      one_sent uartputc_run here

Runs-fifo_example :
    (contents two_waiting ++ 44 ∷ [] ≡ (96 ∷ []) ++ contents one_sent) × IsValid one_sent
Runs-fifo_example =
    Runs-fifo two_waiting one_sent (44 ∷ []) (96 ∷ []) two_waiting-IsValid two_waiting-Runs
