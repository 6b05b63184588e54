-- ===== src/Kalloc.antt =====
-- operating_system_engineering/labs/kernel/kalloc.c: the allocator of physical pages. Free pages are
-- linked through their first eight bytes. `kmem.lock` is held over each change of the list, so a
-- call is one step. `kernel_end` is the linker's symbol `end`. PGSIZE and PGROUNDUP are
-- kernel/riscv.h's, PHYSTOP is kernel/memlayout.h's.
pub mod Chain
pub mod Range
mod Tests
use csklub_os.Base.{
  ℕ, zero, suc, ◌+◌, ◌-◌, ◌*◌, ◌/◌, ◌%◌, ◌||◌, Outcome, ok, panic, ltb, leb, ◌!=◌, if◌then◌else◌,
}
use csklub_os.Memory.{Memory, read64, write64}
use csklub_os.Str.{memset}

abbrev pub page_size : ℕ
page_size = 4096

abbrev pub phys_top : ℕ
phys_top = 0x8000_0000 + 128 * 1024 * 1024

-- Clearing the twelve low bits.
unfoldable pub page_round_up : ℕ → ℕ
page_round_up a = (a + page_size - 1) / page_size * page_size

pub record Kmem : Type 0 where
  pub memory : Memory
  pub freelist : ℕ

unfoldable pub kfree : ℕ → ℕ → Kmem → Outcome Kmem
kfree kernel_end pa s =
    if pa % page_size != 0 || ltb pa kernel_end || leb phys_top pa
    then panic
    else ok
        (record { memory = write64 (memset s.memory pa 1 page_size) pa s.freelist; freelist = pa })

-- The page, 0 if there is none.
unfoldable pub kalloc : Kmem → ℕ × Kmem
kalloc s =
    if s.freelist != 0
    then (
      s.freelist,
      record {
        memory = memset s.memory s.freelist 5 page_size;
        freelist = read64 s.memory s.freelist;
      },
    )
    else (0, s)

-- `for(; p + PGSIZE <= (char*)pa_end; p += PGSIZE)`, with `left` rounds to go.
free_loop : ℕ → ℕ → ℕ → Kmem → Outcome Kmem
free_loop kernel_end zero p s = ok s
free_loop kernel_end (suc left) p s = elim (kfree kernel_end p s) [
  | ok t ↦ free_loop kernel_end left (p + page_size) t
  | panic ↦ panic
]

-- The rounds of the loop: the whole pages between the rounded start and the end.
unfoldable pub freerange : ℕ → ℕ → ℕ → Kmem → Outcome Kmem
unfolding free_loop page_round_up
freerange kernel_end pa_start pa_end s =
    free_loop kernel_end ((pa_end - page_round_up pa_start) / page_size) (page_round_up pa_start) s

unfoldable pub kinit : ℕ → Kmem → Outcome Kmem
unfolding freerange
kinit kernel_end s = freerange kernel_end kernel_end phys_top s
