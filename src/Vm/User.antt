-- ===== src/Vm/User.antt =====
-- kernel/vm.c: the memory of a process: `uvmfirst`, `uvmalloc`, `uvmdealloc`, `uvmcopy`, `uvmfree`. The sizes of a process
-- are below MAXVA, so that the rounding up does not wrap around.
use csklub_os.Base.{
  ℕ, zero, suc, ◌+◌, ◌-◌, ◌/◌, ◌%◌, Bool, true, false, ◌&&◌, not, none, some, Outcome, ok, panic,
  ◌>>=◌, ltb, leb, ◌==◌, if◌then◌else◌,
}
use csklub_os.Memory.{read64}
use csklub_os.Str.{memset, memmove}
use csklub_os.Kalloc.{Kmem, page_size, page_round_up, kalloc, kfree}
use csklub_os.Vm.{is_valid, pte2pa, pte_flags, walk, mappages, uvmunmap, set64}

-- PTE_R, PTE_W, PTE_X and PTE_U.
abbrev pub readable : ℕ
readable = 2

abbrev pub user_access : ℕ
user_access = 16

abbrev pub all_access : ℕ
all_access = 2 + 4 + 8 + 16

abbrev pub zeroed : ℕ → Kmem → Kmem
zeroed page s = record s { memory = memset s.memory page 0 page_size }

unfoldable pub uvmfirst : ℕ → ℕ → ℕ → Kmem → Outcome Kmem
uvmfirst root src sz s =
    if leb page_size sz
    then panic
    else let mem = (kalloc s).0 in
      mappages root 0 page_size mem all_access (zeroed mem (kalloc s).1)
      >>= (λ r. ok (record r.1 { memory = memmove r.1.memory mem src sz }))

-- The new size.
unfoldable pub uvmdealloc : ℕ → ℕ → ℕ → ℕ → Kmem → Outcome (ℕ × Kmem)
uvmdealloc kernel_end root oldsz newsz s =
    if leb oldsz newsz
    then ok (oldsz, s)
    else if ltb (page_round_up newsz) (page_round_up oldsz)
    then uvmunmap kernel_end root (page_round_up newsz)
        ((page_round_up oldsz - page_round_up newsz) / page_size) true s
      >>= (λ t. ok (newsz, t))
    else ok (newsz, s)

-- A page more at `a`: `false` for want of memory.
unfoldable pub grow_page : ℕ → ℕ → ℕ → ℕ → Kmem → Outcome (Bool × Kmem)
grow_page kernel_end root a perm s =
    let mem = (kalloc s).0 in
    let t = (kalloc s).1 in
    if mem == 0
    then ok (false, t)
    else mappages root a page_size mem perm (zeroed mem t)
      >>= (λ r. if r.0 then ok (true, r.1) else kfree kernel_end mem r.1 >>= (λ u. ok (false, u)))

-- `for(a = oldsz; a < newsz; a += PGSIZE)`, with `left` rounds to go; the new size, 0 on failure.
unfoldable pub grow_loop : ℕ → ℕ → ℕ → ℕ → ℕ → ℕ → ℕ → Kmem → Outcome (ℕ × Kmem)
unfolding grow_page uvmdealloc
grow_loop kernel_end root zero a oldsz newsz perm s = ok (newsz, s)
grow_loop kernel_end root (suc left) a oldsz newsz perm s =
    grow_page kernel_end root a perm s >>= (λ r.
      if r.0
      then grow_loop kernel_end root left (a + page_size) oldsz newsz perm r.1
      else uvmdealloc kernel_end root a oldsz r.1 >>= (λ u. ok (0, u.1)))

unfoldable pub uvmalloc : ℕ → ℕ → ℕ → ℕ → ℕ → Kmem → Outcome (ℕ × Kmem)
unfolding grow_loop
uvmalloc kernel_end root oldsz newsz xperm s =
    let from = page_round_up oldsz in
    if ltb newsz oldsz
    then ok (oldsz, s)
    else grow_loop kernel_end root ((newsz - from + page_size - 1) / page_size) from from newsz
        (readable + user_access + xperm) s

-- A round of the loop of `uvmcopy`: `false` where it goes to `err`.
unfoldable pub copy_page : ℕ → ℕ → ℕ → ℕ → Kmem → Outcome (Bool × Kmem)
copy_page kernel_end old new i s = walk false old i s >>= (λ r. elim r.0 [
  | none ↦ panic
  | some at ↦
      let pte = read64 r.1.memory at in
      let mem = (kalloc r.1).0 in
      let t = (kalloc r.1).1 in
      if not (is_valid pte)
      then panic
      else if mem == 0
      then ok (false, t)
      else mappages new i page_size mem (pte_flags pte)
          (record t { memory = memmove t.memory mem (pte2pa pte) page_size })
        >>= (λ u. if u.0 then ok (true, u.1) else kfree kernel_end mem u.1 >>= (λ v. ok (false, v)))
])

unfoldable pub copy_pages : ℕ → ℕ → ℕ → ℕ → ℕ → Kmem → Outcome (Bool × Kmem)
unfolding copy_page
copy_pages kernel_end old new zero i s = ok (true, s)
copy_pages kernel_end old new (suc left) i s = copy_page kernel_end old new i s >>= (λ r.
    if r.0
    then copy_pages kernel_end old new left (i + page_size) r.1
    else uvmunmap kernel_end new 0 (i / page_size) true r.1 >>= (λ u. ok (false, u)))

unfoldable pub uvmcopy : ℕ → ℕ → ℕ → ℕ → Kmem → Outcome (Bool × Kmem)
unfolding copy_pages
uvmcopy kernel_end old new sz s =
    copy_pages kernel_end old new ((sz + page_size - 1) / page_size) 0 s

-- `for(int i = 0; i < 512; i++)` of `freewalk`, with `left` entries to go; `free_child` is the recursive
-- call.
unfoldable pub free_entries : (ℕ → Kmem → Outcome Kmem) → ℕ → ℕ → Kmem → Outcome Kmem
free_entries free_child zero at s = ok s
free_entries free_child (suc left) at s =
    let pte = read64 s.memory at in
    let rest = free_entries free_child left (at + 8) s in
    if is_valid pte && pte / 2 % 8 == 0
    then free_child (pte2pa pte) s >>= (λ t. free_entries free_child left (at + 8) (set64 at 0 t))
    else if is_valid pte
    then panic
    else rest

-- A table of the lowest level has no tables below it.
unfoldable pub freewalk : ℕ → ℕ → ℕ → Kmem → Outcome Kmem
unfolding free_entries
freewalk kernel_end zero root s =
    free_entries (λ child t. panic) 512 root s >>= (λ t. kfree kernel_end root t)
freewalk kernel_end (suc level) root s =
    free_entries (freewalk kernel_end level) 512 root s >>= (λ t. kfree kernel_end root t)

unfoldable pub uvmfree : ℕ → ℕ → ℕ → Kmem → Outcome Kmem
unfolding freewalk
uvmfree kernel_end root sz s =
    (if ltb 0 sz then uvmunmap kernel_end root 0 (page_round_up sz / page_size) true s else ok s)
    >>= (λ t. freewalk kernel_end 2 root t)
