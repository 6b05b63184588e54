-- ===== src/Str.antt =====
-- operating_system_engineering/labs/kernel/string.c: the kernel's byte and string routines. The
-- routines that write take the memory and return the new one (each returns its first argument,
-- which is left out). A counted loop recurs on the rounds that are left; a pointer that a loop moves
-- is an argument of it. The loop of `strlen`, which nothing counts, takes fuel.
pub mod Move
pub mod Copy
pub mod Compare
mod Tests
use csklub_os.Base.{
  ℕ, zero, suc, ◌+◌, ◌-◌, ◌≤◌, ◌<◌, ◌≡◌, Bool, true, false, ◌&&◌, Option, none, some, ltb, ◌==◌,
  ◌!=◌, if◌then◌else◌, ℤ, pos, negsuc, sub_ℕ,
}
use csklub_os.Memory.{Memory, store}

-- `for(i = 0; i < n; i++) cdst[i] = c;`, with `left` rounds to go.
memset_loop : ℕ → ℕ → ℕ → ℕ → Memory → Memory
memset_loop zero i dst c m = m
memset_loop (suc left) i dst c m = memset_loop left (i + 1) dst c (store m (dst + i) c)

unfoldable pub memset : Memory → ℕ → ℕ → ℕ → Memory
unfolding memset_loop
memset m dst c n = memset_loop n 0 dst c m

-- `while(n-- > 0)` over `s1` and `s2`.
unfoldable pub memcmp : Memory → ℕ → ℕ → ℕ → ℤ
memcmp m s1 s2 zero = pos 0
memcmp m s1 s2 (suc n) =
    let rest = memcmp m (s1 + 1) (s2 + 1) n in if m s1 != m s2 then sub_ℕ (m s1) (m s2) else rest

-- `while(n-- > 0) *--d = *--s;`
unfoldable pub copy_down : Memory → ℕ → ℕ → ℕ → Memory
copy_down m d s zero = m
copy_down m d s (suc n) = copy_down (store m (d - 1) (m (s - 1))) (d - 1) (s - 1) n

-- `while(n-- > 0) *d++ = *s++;`
unfoldable pub copy_up : Memory → ℕ → ℕ → ℕ → Memory
copy_up m d s zero = m
copy_up m d s (suc n) = copy_up (store m d (m s)) (d + 1) (s + 1) n

unfoldable pub memmove : Memory → ℕ → ℕ → ℕ → Memory
unfolding copy_down copy_up
memmove m dst src n =
    if n == 0
    then m
    else if ltb src dst && ltb dst (src + n)
    then copy_down m (dst + n) (src + n) n
    else copy_up m dst src n

unfoldable pub memcpy : Memory → ℕ → ℕ → ℕ → Memory
unfolding memmove
memcpy m dst src n = memmove m dst src n

-- `while(n > 0 && *p && *p == *q)`, and what is returned where the loop stops.
unfoldable pub strncmp : Memory → ℕ → ℕ → ℕ → ℤ
strncmp m p q zero = pos 0
strncmp m p q (suc n) =
    let rest = strncmp m (p + 1) (q + 1) n in
    if m p != 0 && m p == m q then rest else sub_ℕ (m p) (m q)

-- `while(n-- > 0) *s++ = 0;`
pad : Memory → ℕ → ℕ → Memory
pad m s zero = m
pad m s (suc n) = pad (store m s 0) (s + 1) n

-- `while(n-- > 0 && (*s++ = *t++) != 0)`, then the padding by what is left of `n`.
copy_pad : Memory → ℕ → ℕ → ℕ → Memory
unfolding pad
copy_pad m s t zero = m
copy_pad m s t (suc n) =
    let rest = copy_pad (store m s (m t)) (s + 1) (t + 1) n in
    if m t != 0 then rest else pad (store m s (m t)) (s + 1) n

unfoldable pub strncpy : Memory → ℕ → ℕ → ℤ → Memory
unfolding copy_pad
strncpy m s t (pos n) = copy_pad m s t n
strncpy m s t (negsuc n) = m

-- `while(--n > 0 && (*s++ = *t++) != 0)` with `n - 1` given, then `*s = 0`.
copy_terminate : Memory → ℕ → ℕ → ℕ → Memory
copy_terminate m s t zero = store m s 0
copy_terminate m s t (suc n) =
    let rest = copy_terminate (store m s (m t)) (s + 1) (t + 1) n in
    if m t != 0 then rest else store (store m s (m t)) (s + 1) 0

unfoldable pub safestrcpy : Memory → ℕ → ℕ → ℤ → Memory
unfolding copy_terminate
safestrcpy m s t (pos zero) = m
safestrcpy m s t (pos (suc n)) = copy_terminate m s t n
safestrcpy m s t (negsuc n) = m

-- `for(n = 0; s[n]; n++)`; `none` means that the fuel ran out.
strlen_from : ℕ → Memory → ℕ → ℕ → Option ℕ
strlen_from zero m s n = none
strlen_from (suc fuel) m s n =
    let rest = strlen_from fuel m s (n + 1) in if m (s + n) != 0 then rest else some n

unfoldable pub strlen : ℕ → Memory → ℕ → Option ℕ
unfolding strlen_from
strlen fuel m s = strlen_from fuel m s 0
