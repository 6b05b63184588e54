-- ===== src/Vm/Copy.antt =====
-- kernel/vm.c: `copyout`, `copyin` and `copyinstr`. A round of their loops copies what lies in one
-- page. A loop has fuel, and `none` means that it ran out. Below MAXVA `walk` does not stop the machine.
-- `true` stands for 0, `false` for -1.
pub mod Address
pub mod In
pub mod Target
pub mod Out
use csklub_os.Base.{
  ℕ, zero, suc, ◌+◌, ◌-◌, ◌*◌, ◌/◌, min, Bool, true, false, ◌&&◌, not, Option, none, some, leb,
  ◌==◌, if◌then◌else◌,
}
use csklub_os.Memory.{Memory, store, read64}
use csklub_os.Str.{memmove}
use csklub_os.Kalloc.{Kmem, page_size}
use csklub_os.Vm.{max_va, is_valid, is_user, is_writable, pte2pa, walk_levels, walkaddr}

-- PGROUNDDOWN.
abbrev pub page_start : ℕ → ℕ
page_start a = a / page_size * page_size

-- The bytes from `va` on that lie in its page, of `len`.
abbrev pub in_page : ℕ → ℕ → ℕ
in_page va len = min (page_size - (va - page_start va)) len

abbrev pub move : ℕ → ℕ → ℕ → Kmem → Kmem
move dst src n s = record s { memory = memmove s.memory dst src n }

unfoldable pub copyin : ℕ → ℕ → ℕ → ℕ → ℕ → Kmem → Option (Bool × Kmem)
copyin zero root dst srcva len s = none
copyin (suc fuel) root dst srcva len s =
    let va0 = page_start srcva in
    let pa0 = walkaddr root va0 s in
    let n = in_page srcva len in
    let rest =
      copyin fuel root (dst + n) (va0 + page_size) (len - n) (move dst (pa0 + (srcva - va0)) n s) in
    if len == 0 then some (true, s) else if pa0 == 0 then some (false, s) else rest

-- The page that `copyout` writes to: it must be mapped, the user's, and writable.
unfoldable pub out_page : ℕ → ℕ → Kmem → Option ℕ
out_page root va0 s = if leb max_va va0 then none else elim (walk_levels false 2 va0 root s).0 [
  | none ↦ none
  | some at ↦
      let pte = read64 s.memory at in
      if is_valid pte && is_user pte && is_writable pte then some (pte2pa pte) else none
]

unfoldable pub copyout : ℕ → ℕ → ℕ → ℕ → ℕ → Kmem → Option (Bool × Kmem)
unfolding out_page
copyout zero root dstva src len s = none
copyout (suc fuel) root dstva src len s =
    let va0 = page_start dstva in
    let n = in_page dstva len in
    let rest = λ (pa0 : ℕ).
      copyout fuel root (va0 + page_size) (src + n) (len - n)
        (move (pa0 + (dstva - va0)) src n s) in
    if len == 0
    then some (true, s)
    else elim (out_page root va0 s) [ none ↦ some (false, s) | some pa0 ↦ rest pa0 ]

-- The inner loop of `copyinstr`, with `n` bytes of the page to go: whether the zero was found.
unfoldable pub copy_text : ℕ → ℕ → ℕ → Memory → Bool × Memory
copy_text zero p dst m = (false, m)
copy_text (suc n) p dst m =
    let rest = copy_text n (p + 1) (dst + 1) (store m dst (m p)) in
    if m p == 0 then (true, store m dst 0) else rest

unfoldable pub copyinstr : ℕ → ℕ → ℕ → ℕ → ℕ → Kmem → Option (Bool × Kmem)
unfolding copy_text
copyinstr zero root dst srcva max s = none
copyinstr (suc fuel) root dst srcva max s =
    let va0 = page_start srcva in
    let pa0 = walkaddr root va0 s in
    let n = in_page srcva max in
    let r = copy_text n (pa0 + (srcva - va0)) dst s.memory in
    let t = record s { memory = r.1 } in
    let rest = copyinstr fuel root (dst + n) (va0 + page_size) (max - n) t in
    if max == 0
    then some (false, s)
    else if pa0 == 0
    then some (false, s)
    else if r.0
    then some (true, t)
    else rest
