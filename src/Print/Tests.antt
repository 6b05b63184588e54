-- ===== src/Print/Tests.antt =====
-- A number of 17 digits, and the format `%d`.
use csklub_os.Base.{
  ◌-◌, ◌^◌, ◌≤◌, ◌≡◌, ◌==◌, ◌↔◌, arith, true, false, ◌&&◌, List, length, some, leb, ltb,
  if◌then◌else◌, ℕ,
}
use csklub_os.Print.{buf_size, printint}
use csklub_os.Memory.{Memory}
use csklub_os.Print.Size.{printint-fits}

abbrev long_number : ℕ
long_number = 12345678901234567

printint-fits_example :
    (buf : List ℕ) × (printint 20 long_number 10 false ≡ some buf)
    × ((length buf ≤ buf_size) ↔ (
        (if false && leb (2 ^ 63) long_number
          then ltb (2 ^ 64 - long_number) (10 ^ 15)
          else ltb long_number (10 ^ 16))
        ≡ true))
printint-fits_example = printint-fits long_number false (omega arith)

abbrev format : Memory
format = λ i. if i == 7 then 37 else if i == 8 then 100 else 0
