-- ===== src/Ulib/Move.antt =====
-- `memmove` of the user library against that of the kernel.
use csklub_os.Base.{
  ℕ, ◌+◌, ◌-◌, ◌<◌, ◌≡◌, inl, inr, sym, ◌∙◌, ap, arith, dec_lt, ltb, Bool-cases, pos,
}
use csklub_os.Memory.{Memory, IsBytes}
use csklub_os.Str.{memmove}
use csklub_os.Str.Move.{
  Outside, copy_up-Outside, copy_up-inside, copy_down-Outside, copy_down-inside, memmove_lem,
}
use csklub_os.Ulib.{user_memmove}

user_memmove-Outside :
    (m : Memory) (d s n a : ℕ) → Outside a d n → user_memmove m d s (pos n) a ≡ m a
unfolding user_memmove
user_memmove-Outside m d s n a o = elim (Bool-cases (ltb d s)) [
  | inl up ↦ rw (user_memmove, up) (copy_up-Outside n m d s a o)
  | inr down ↦ rw (user_memmove, down) (copy_down-Outside n m d s a o)
]

user_memmove-inside :
    (m : Memory) (d s n i : ℕ) → IsBytes m → i < n → user_memmove m d s (pos n) (d + i) ≡ m (s + i)
unfolding user_memmove
user_memmove-inside m d s n i h lt = elim (Bool-cases (ltb d s)) [
  | inl up ↦ rw (user_memmove, up) (copy_up-inside n m d s i h (inl (ground (arith, up))) lt)
  | inr down ↦ rw (user_memmove, down) (copy_down-inside n m d s i h (ground (arith, down)) lt)
]

-- The user library's `memmove` and the kernel's leave the same byte at every address, however the two
-- ranges overlap, although they copy upwards and downwards in different cases. Memory is of bytes,
-- and the length is not negative.
pub user_memmove-memmove :
    (m : Memory) (dst src n a : ℕ)
    → IsBytes m
    → user_memmove m dst src (pos n) a ≡ memmove m dst src n a
user_memmove-memmove m dst src n a h =
    let (inside, outside) = memmove_lem m dst src n h in
    elim (dec_lt a dst) [
      | yes below ↦ user_memmove-Outside m dst src n a (inl below) ∙ sym (outside a (inl below))
      | no above ↦ elim (dec_lt (a - dst) n) [
        | no behind ↦
            let o : Outside a dst n = inr (omega (arith, above, behind)) in
            user_memmove-Outside m dst src n a o ∙ sym (outside a o)
        | yes lt ↦
            let e : a ≡ dst + (a - dst) = omega (arith, above) in
            ap (user_memmove m dst src (pos n)) e
            ∙ user_memmove-inside m dst src n (a - dst) h lt
            ∙ sym (inside (a - dst) lt)
            ∙ ap (memmove m dst src n) (sym e)
      ]
    ]
