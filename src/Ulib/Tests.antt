-- ===== src/Ulib/Tests.antt =====
-- The text `42` in memory.
use csklub_os.Base.{
  ℕ, ◌+◌, ◌≡◌, arith, true, false, ◌&&◌, List, length, some, leb, ◌==◌, if◌then◌else◌,
}
use csklub_os.Memory.{Memory, IsBytes}
use csklub_os.Print.{unwind, user_printint}
use csklub_os.Ulib.{atoi}
use csklub_os.Ulib.Number.{Holds, atoi-user_printint}

abbrev text : Memory
text = λ i. if i == 7 then 52 else if i == 8 then 50 else 0

atoi-user_printint_example :
    (buf : List ℕ) × (user_printint 10 42 10 true ≡ some buf)
    × (Holds text 7 (unwind buf)
        → (leb 48 (text (7 + length buf)) && leb (text (7 + length buf)) 57) ≡ false
        → atoi 11 text 7 ≡ some 42)
atoi-user_printint_example = atoi-user_printint 42 text 7 (omega arith)

text-IsBytes : IsBytes text
text-IsBytes a = ground arith
