-- ===== src/Console.antt =====
-- operating_system_engineering/labs/kernel/console.c: line input. `r`, `w` and `e` are 32-bit counters
-- that wrap. A function takes the console with its lock held. What is sent to the serial port is a
-- list of characters; `^P`, which prints the process list, changes nothing here. `copyout`, of one
-- byte, and what `killed` answers are arguments.
pub mod Window
pub mod Edit
pub mod Typed
pub mod Read
mod Tests
use csklub_os.Base.{
  ℕ, zero, suc, ◌+◌, ◌-◌, ◌%◌, ◌^◌, Bool, true, false, ◌&&◌, ◌||◌, not, List, [], ◌∷◌, ◌++◌, ltb,
  ◌==◌, ◌!=◌, if◌then◌else◌,
}

abbrev pub input_size : ℕ
input_size = 128

-- BACKSPACE, `\n`, `\r` and the control characters.
abbrev pub backspace : ℕ
backspace = 0x100

abbrev pub newline : ℕ
newline = 10

abbrev pub carriage_return : ℕ
carriage_return = 13

abbrev pub control : ℕ → ℕ
control x = x - 64

pub record Console : Type 0 where
  pub buf : ℕ → ℕ
  pub r : ℕ
  pub w : ℕ
  pub e : ℕ

-- What the serial port is sent.
unfoldable pub consputc : ℕ → List ℕ
consputc c = if c == backspace then 8 ∷ 32 ∷ 8 ∷ [] else c ∷ []

-- `cons.e--`.
unfoldable pub take_back : Console → Console
take_back k = record k { e = (k.e + 2 ^ 32 - 1) % 2 ^ 32 }

-- `while(cons.e != cons.w && ...)`, with the distance from `w` to `e`.
unfoldable pub kill_line : ℕ → Console → Console × List ℕ
unfolding consputc take_back
kill_line zero k = (k, [])
kill_line (suc left) k =
    let rest = kill_line left (take_back k) in
    if k.buf ((k.e + 2 ^ 32 - 1) % 2 ^ 32 % input_size) != newline
    then (rest.0, consputc backspace ++ rest.1)
    else (k, [])

-- `cons.buf[cons.e++ % INPUT_BUF_SIZE] = c;`, for a `c` that is a byte, as all that `uartgetc` gives.
unfoldable pub store_input : Console → ℕ → Console
store_input k c = record k {
  buf = λ i. if i == k.e % input_size then c else k.buf i;
  e = (k.e + 1) % 2 ^ 32;
}

-- The console, what is echoed, and whether readers are woken.
pub record Handled : Type 0 where
  pub console : Console
  pub echo : List ℕ
  pub woken : Bool

-- The default case of `consoleintr`.
unfoldable pub accept : ℕ → Console → Handled
unfolding consputc store_input
accept c k =
    let c1 = if c == carriage_return then newline else c in
    let k1 = store_input k c1 in
    if c1 == newline || c1 == control 68 || (k1.e + 2 ^ 32 - k1.r) % 2 ^ 32 == input_size
    then record { console = record k1 { w = k1.e }; echo = consputc c1; woken = true }
    else record { console = k1; echo = consputc c1; woken = false }

unfoldable pub consoleintr : ℕ → Console → Handled
unfolding consputc take_back kill_line accept
consoleintr c k =
    if c == control 80
    then record { console = k; echo = []; woken = false }
    else if c == control 85
    then (let q = kill_line ((k.e + 2 ^ 32 - k.w) % 2 ^ 32) k in
        record { console = q.0; echo = q.1; woken = false })
    else if c == control 72 || c == 0x7f
    then (if k.e != k.w
        then record { console = take_back k; echo = consputc backspace; woken = false }
        else record { console = k; echo = []; woken = false })
    else if c != 0 && ltb ((k.e + 2 ^ 32 - k.r) % 2 ^ 32) input_size
    then accept c k
    else record { console = k; echo = []; woken = false }

pub data ReadEnd : Type 0 where
  returned : ℕ → ReadEnd
  asleep : ℕ → ReadEnd
  failed : ReadEnd

-- How `consoleread` ends, the console, and the bytes that went out by `copyout`.
pub record Line : Type 0 where
  pub ending : ReadEnd
  pub console : Console
  pub sent : List ℕ

-- `c = cons.buf[cons.r++ % INPUT_BUF_SIZE];`
unfoldable pub next_input : Console → ℕ
next_input k = k.buf (k.r % input_size)

unfoldable pub pass_input : Console → Console
pass_input k = record k { r = (k.r + 1) % 2 ^ 32 }

-- `while(n > 0)`, with `target - n` bytes done; `asleep` is to be called again with what is left.
unfoldable pub consoleread : (ℕ → ℕ → Bool) → Bool → ℕ → ℕ → ℕ → Console → Line
unfolding next_input pass_input
consoleread copyout killed dst done zero k = record {
  ending = returned done;
  console = k;
  sent = [];
}
consoleread copyout killed dst done (suc n) k =
    let c = next_input k in
    let rest = consoleread copyout killed (dst + 1) (done + 1) n (pass_input k) in
    if k.r == k.w
    then (if killed
        then record { ending = failed; console = k; sent = [] }
        else record { ending = asleep done; console = k; sent = [] })
    else if c == control 68
    then record {
      ending = returned done;
      console = if done == 0 then pass_input k else k;
      sent = [];
    }
    else if not (copyout dst c)
    then record { ending = returned done; console = pass_input k; sent = [] }
    else if c == newline
    then record { ending = returned (done + 1); console = pass_input k; sent = c ∷ [] }
    else record rest { sent = c ∷ rest.sent }
