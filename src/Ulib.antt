-- ===== src/Ulib.antt =====
-- operating_system_engineering/labs/user/ulib.c: the string routines of the user library. Those of them
-- that are written as in kernel/string.c use the loops of Str. A pointer loop that nothing counts has
-- fuel, and `none` means that it ran out.
pub mod Number
pub mod Move
mod Tests
use csklub_os.Base.{
  ℕ, zero, suc, ◌+◌, ◌-◌, ◌*◌, ◌%◌, ◌^◌, Bool, true, false, ◌&&◌, Option, none, some, ltb, leb,
  ◌==◌, ◌!=◌, if◌then◌else◌, ℤ, pos, negsuc, sub_ℕ,
}
use csklub_os.Memory.{Memory, store}
use csklub_os.Str.{copy_up, copy_down}

-- `while((*s++ = *t++) != 0)`.
unfoldable pub strcpy : ℕ → Memory → ℕ → ℕ → Option Memory
strcpy zero m s t = none
strcpy (suc fuel) m s t =
    let rest = strcpy fuel (store m s (m t)) (s + 1) (t + 1) in
    if m t != 0 then rest else some (store m s (m t))

-- `while(*p && *p == *q)`.
unfoldable pub strcmp : ℕ → Memory → ℕ → ℕ → Option ℤ
strcmp zero m p q = none
strcmp (suc fuel) m p q =
    let rest = strcmp fuel m (p + 1) (q + 1) in
    if m p != 0 && m p == m q then rest else some (sub_ℕ (m p) (m q))

-- The place of the character, 0 if it is not in the text.
unfoldable pub strchr : ℕ → Memory → ℕ → ℕ → Option ℕ
strchr zero m s c = none
strchr (suc fuel) m s c =
    let rest = strchr fuel m (s + 1) c in
    if m s == 0 then some 0 else if m s == c then some s else rest

-- `n = n*10 + *s++ - '0'`.
unfoldable pub add_digit : ℕ → ℕ → ℕ
add_digit n c = (n * 10 + c + 2 ^ 32 - 48) % 2 ^ 32

-- `while('0' <= *s && *s <= '9')`.
unfoldable pub atoi_loop : ℕ → Memory → ℕ → ℕ → Option ℕ
unfolding add_digit
atoi_loop zero m s n = none
atoi_loop (suc fuel) m s n =
    let rest = atoi_loop fuel m (s + 1) (add_digit n (m s)) in
    if leb 48 (m s) && leb (m s) 57 then rest else some n

unfoldable pub atoi : ℕ → Memory → ℕ → Option ℕ
unfolding atoi_loop
atoi fuel m s = atoi_loop fuel m s 0

-- A negative `n` moves nothing.
unfoldable pub user_memmove : Memory → ℕ → ℕ → ℤ → Memory
user_memmove m dst src (pos n) =
    if ltb dst src then copy_up m dst src n else copy_down m (dst + n) (src + n) n
user_memmove m dst src (negsuc n) = m
