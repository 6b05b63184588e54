-- ===== src/Vm.antt =====
-- operating_system_engineering/labs/kernel/vm.c: page tables, in the memory of the page allocator. An entry of
-- a page table is a little-endian 64-bit word. A `perm` is below 2 ^ 10, so that `|` puts it into the
-- low bits of an entry, which `PA2PTE` leaves zero. An address that counts up by pages does not
-- wrap around, since `walk` stops the machine at MAXVA.
pub mod Tree
pub mod Grow
pub mod NewTable
pub mod Descend
pub mod Walk
pub mod Lookup
pub mod Entry
pub mod Map
pub mod Unmap
pub mod Free
pub mod Copy
pub mod User
mod Tests
use csklub_os.Base.{
  ℕ, zero, suc, ◌+◌, ◌-◌, ◌*◌, ◌/◌, ◌%◌, ◌^◌, Bool, true, false, ◌||◌, not, Option, none, some,
  Outcome, ok, panic, ◌>>=◌, ltb, leb, ◌==◌, ◌!=◌, if◌then◌else◌,
}
use csklub_os.Memory.{Memory, read64, write64}
use csklub_os.Str.{memset}
use csklub_os.Kalloc.{Kmem, page_size, kalloc, kfree}

-- MAXVA.
abbrev pub max_va : ℕ
max_va = 2 ^ 38

-- PX: the index of `va` in a table of the level.
abbrev pub px : ℕ → ℕ → ℕ
px zero va = va / 2 ^ 12 % 512
px (suc zero) va = va / 2 ^ 21 % 512
px (suc (suc level)) va = va / 2 ^ 30 % 512

-- PA2PTE and PTE2PA.
abbrev pub pa2pte : ℕ → ℕ
pa2pte pa = pa / 4096 * 1024

abbrev pub pte2pa : ℕ → ℕ
pte2pa pte = pte / 1024 * 4096 % 2 ^ 64

-- PTE_V.
abbrev pub is_valid : ℕ → Bool
is_valid pte = pte % 2 == 1

-- PTE_W and PTE_U.
abbrev pub is_writable : ℕ → Bool
is_writable pte = pte / 4 % 2 == 1

abbrev pub is_user : ℕ → Bool
is_user pte = pte / 16 % 2 == 1

-- PTE_FLAGS.
abbrev pub pte_flags : ℕ → ℕ
pte_flags pte = pte % 1024

-- `PA2PTE(pa) | perm | PTE_V`.
unfoldable pub make_pte : ℕ → ℕ → ℕ
make_pte pa perm = pa2pte pa + (if perm % 2 == 1 then perm else perm + 1)

-- `&pagetable[PX(level, va)]`.
abbrev pub entry : ℕ → ℕ → ℕ → ℕ
entry level va table = table + 8 * px level va

-- A round of the loop of `walk`: the next table, `none` where `walk` returns 0.
unfoldable pub descend : Bool → ℕ → ℕ → ℕ → Kmem → Option ℕ × Kmem
descend alloc level va table s =
    let at = entry level va table in
    let pte = read64 s.memory at in
    let page = (kalloc s).0 in
    let t = (kalloc s).1 in
    if is_valid pte
    then (some (pte2pa pte), s)
    else if not alloc
    then (none, s)
    else if page == 0
    then (none, t)
    else (
      some page,
      record t { memory = write64 (memset t.memory page 0 page_size) at (pa2pte page + 1) },
    )

-- `for(int level = 2; level > 0; level--)`, and the entry of the last table.
unfoldable pub walk_levels : Bool → ℕ → ℕ → ℕ → Kmem → Option ℕ × Kmem
walk_levels alloc zero va table s = (some (entry 0 va table), s)
walk_levels alloc (suc level) va table s =
    let r = descend alloc (suc level) va table s in
    elim r.0 [ none ↦ (none, r.1) | some next ↦ walk_levels alloc level va next r.1 ]

-- The address of the entry; `none` is the null pointer.
unfoldable pub walk : Bool → ℕ → ℕ → Kmem → Outcome (Option ℕ × Kmem)
walk alloc root va s = if leb max_va va then panic else ok (walk_levels alloc 2 va root s)

-- The physical address, 0 if the page is not the user's.
unfoldable pub walkaddr : ℕ → ℕ → Kmem → ℕ
walkaddr root va s = if leb max_va va then 0 else elim (walk_levels false 2 va root s).0 [
  | none ↦ 0
  | some at ↦
      let pte = read64 s.memory at in
      if not (is_valid pte) then 0 else if not (is_user pte) then 0 else pte2pa pte
]

-- A write to a word of the memory.
abbrev pub set64 : ℕ → ℕ → Kmem → Kmem
set64 at v s = record s { memory = write64 s.memory at v }

-- A round of the loop of `mappages`. The result is whether there was memory for the tables.
unfoldable pub map_page : ℕ → ℕ → ℕ → ℕ → Kmem → Outcome (Bool × Kmem)
map_page root a pa perm s = walk true root a s >>= (λ r. elim r.0 [
  | none ↦ ok (false, r.1)
  | some at ↦
      if is_valid (read64 r.1.memory at) then panic else ok (true, set64 at (make_pte pa perm) r.1)
])

-- The loop, with `left` pages to go; the last one is `last`.
unfoldable pub map_loop : ℕ → ℕ → ℕ → ℕ → ℕ → Kmem → Outcome (Bool × Kmem)
map_loop root zero a pa perm s = ok (true, s)
map_loop root (suc left) a pa perm s =
    map_page root a pa perm s
    >>= (λ r. if r.0 then map_loop root left (a + page_size) (pa + page_size) perm r.1 else ok r)

-- `true` stands for 0, `false` for -1.
unfoldable pub mappages : ℕ → ℕ → ℕ → ℕ → ℕ → Kmem → Outcome (Bool × Kmem)
mappages root va size pa perm s =
    if va % page_size != 0
    then panic
    else if size % page_size != 0
    then panic
    else if size == 0
    then panic
    else map_loop root (size / page_size) va pa perm s

unfoldable pub kvmmap : ℕ → ℕ → ℕ → ℕ → ℕ → Kmem → Outcome Kmem
unfolding mappages
kvmmap root va pa sz perm s = mappages root va sz pa perm s >>= (λ r. if r.0 then ok r.1 else panic)

-- A round of the loop of `uvmunmap`.
unfoldable pub unmap_page : ℕ → ℕ → ℕ → Bool → Kmem → Outcome Kmem
unmap_page kernel_end root a do_free s = walk false root a s >>= (λ r. elim r.0 [
  | none ↦ panic
  | some at ↦
      let pte = read64 r.1.memory at in
      if not (is_valid pte)
      then panic
      else if pte_flags pte == 1
      then panic
      else (if do_free then kfree kernel_end (pte2pa pte) r.1 else ok r.1)
        >>= (λ t. ok (set64 at 0 t))
])

unfoldable pub unmap_loop : ℕ → ℕ → ℕ → ℕ → Bool → Kmem → Outcome Kmem
unmap_loop kernel_end root zero a do_free s = ok s
unmap_loop kernel_end root (suc left) a do_free s =
    unmap_page kernel_end root a do_free s
    >>= (λ t. unmap_loop kernel_end root left (a + page_size) do_free t)

-- The rounds of `for(a = va; a < va + npages*PGSIZE; a += PGSIZE)`, where the end may wrap: then there is none.
abbrev pub unmap_rounds : ℕ → ℕ → ℕ
unmap_rounds va npages = ((va + npages * page_size) % 2 ^ 64 - va) / page_size

unfoldable pub uvmunmap : ℕ → ℕ → ℕ → ℕ → Bool → Kmem → Outcome Kmem
uvmunmap kernel_end root va npages do_free s =
    if va % page_size != 0
    then panic
    else unmap_loop kernel_end root (unmap_rounds va npages) va do_free s

-- The new table, 0 if there is no memory.
unfoldable pub uvmcreate : Kmem → ℕ × Kmem
uvmcreate s =
    let page = (kalloc s).0 in
    let t = (kalloc s).1 in
    if page == 0 then (0, t) else (page, record t { memory = memset t.memory page 0 page_size })

-- `*pte &= ~PTE_U`.
unfoldable pub uvmclear : ℕ → ℕ → Kmem → Outcome Kmem
uvmclear root va s = walk false root va s >>= (λ r. elim r.0 [
  | none ↦ panic
  | some at ↦
      let pte = read64 r.1.memory at in ok (set64 at (if is_user pte then pte - 16 else pte) r.1)
])
