-- ===== src/Vm/Copy/Address.antt =====
-- The bytes that user addresses stand for.
use csklub_os.Base.{
  ℕ, ◌+◌, ◌-◌, ◌/◌, ◌%◌, ◌≡◌, inl, inr, refl, ◌∙◌, ap, arith, true, ltb, if◌then◌else◌, dec_lt,
}
use csklub_os.Memory.{Memory, IsBytes}
use csklub_os.Str.{memmove}
use csklub_os.Str.Move.{memmove_lem}
use csklub_os.Kalloc.{Kmem, page_size}
use csklub_os.Vm.{max_va, walkaddr}
use csklub_os.Vm.Tree.{leaf, leaf-page}
use csklub_os.Vm.Lookup.{user_page, walkaddr-leaf}
use csklub_os.Vm.Copy.{page_start}

-- Where the next round goes on.
abbrev pub next_page : ℕ → ℕ
next_page va = page_start va + page_size

-- The physical page of a user address, 0 if it has none.
abbrev pub phys : ℕ → Memory → ℕ → ℕ
phys root m va = if ltb va max_va then user_page (leaf m root va) else 0

-- The physical address of a user address.
abbrev pub byte_at : ℕ → Memory → ℕ → ℕ
byte_at root m va = phys root m va + va % 4096

pub phys-page :
    (root : ℕ) (m : Memory) (va vb : ℕ) → va / 4096 ≡ vb / 4096 → phys root m va ≡ phys root m vb
phys-page root m va vb e =
    let same : ltb va max_va ≡ ltb vb max_va = ground (arith, e) in
    rw (same, leaf-page m root va vb e) refl

pub walkaddr-phys :
    (root va : ℕ) (s : Kmem) → walkaddr root (page_start va) s ≡ phys root s.memory va
unfolding walkaddr
walkaddr-phys root va s = elim (dec_lt (page_start va) max_va) [
  | yes lt ↦
      let inside : ltb (page_start va) max_va ≡ true = ground (arith, lt) in
      let here : phys root s.memory (page_start va) ≡ phys root s.memory va =
        phys-page root s.memory (page_start va) va (omega arith) in
      let found : walkaddr root (page_start va) s ≡ phys root s.memory (page_start va) =
        walkaddr-leaf root (page_start va) s lt ∙ rw inside refl in
      found ∙ here
  | no over ↦ ground (arith, over)
]

pub memmove-IsBytes : (m : Memory) (d s n : ℕ) → IsBytes m → IsBytes (memmove m d s n)
memmove-IsBytes m d s n h a = elim (dec_lt a d) [
  | yes below ↦ omega (arith, h a, (memmove_lem m d s n h).1 a (inl below))
  | no above ↦ elim (dec_lt (a - d) n) [
    | no behind ↦
        omega (arith, h a, (memmove_lem m d s n h).1 a (inr (omega (arith, above, behind))))
    | yes lt ↦
        let e : d + (a - d) ≡ a = omega (arith, above) in
        omega (arith, h (s + (a - d)), (memmove_lem m d s n h).0 (a - d) lt, ap (memmove m d s n) e)
  ]
]
