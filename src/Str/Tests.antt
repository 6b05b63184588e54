-- ===== src/Str/Tests.antt =====
-- The string routines on a small text: "abcd" and a NUL at address 10, in zeroed memory.
use csklub_os.Base.{◌≡◌, refl, arith, if◌then◌else◌, ◌==◌, pos, negsuc}
use csklub_os.Memory.{Memory, store, IsBytes}
use csklub_os.Str.{memcmp, memmove}

abbrev letters : Memory
letters a =
    if a == 10
    then 97
    else if a == 11
    then 98
    else if a == 12
    then 99
    else if a == 13
    then 100
    else 0

letters-IsBytes : IsBytes letters
letters-IsBytes a = ground arith

-- Overlapping, upwards and downwards.
memmove_runs :
    (memmove letters 12 10 3 12 ≡ 97)
    × (memmove letters 12 10 3 14 ≡ 99)
    × (memmove letters 9 10 3 9 ≡ 97)
    × (memmove letters 9 10 3 11 ≡ 99)
unfolding memmove store
memmove_runs = (refl, refl, refl, refl)

memcmp_runs : (memcmp letters 10 11 2 ≡ negsuc 0) × (memcmp letters 10 10 4 ≡ pos 0)
unfolding memcmp
memcmp_runs = (refl, refl)
