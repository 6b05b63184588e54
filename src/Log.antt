-- ===== src/Log.antt =====
-- operating_system_engineering/labs/kernel/log.c: the write-ahead log. `lh.n` and the first `n`
-- entries of `lh.block` are one list. `dev` is the one device. The buffers are those of `Disk`;
-- `brelse`, which only gives a buffer back, is left out.
pub mod Head
pub mod Logical
pub mod Loops
pub mod Commit
pub mod Crash
pub mod Reserve
mod Tests
use csklub_os.Base.{
  ℕ, zero, suc, ◌+◌, ◌-◌, ◌*◌, ◌%◌, ◌^◌, ◌≡◌, Bool, true, false, ◌&&◌, ◌||◌, not, List, [], ◌∷◌,
  ◌++◌, Option, none, some, Outcome, ok, panic, ltb, leb, ◌==◌, if◌then◌else◌, length, mem,
}
use csklub_os.Disk.{Block, Blocks, Device, update, bread, fill, bwrite, bpin, bunpin}

pub record Log : Type 0 where
  pub start : ℕ
  pub size : ℕ
  pub outstanding : ℕ
  pub committing : Bool
  pub blocks : List ℕ

-- `for (i = 0; i < n; i++) log.lh.block[i] = lh->block[i];`
unfoldable pub read_words : Block → ℕ → ℕ → List ℕ
read_words h i zero = []
read_words h i (suc n) = h (i + 1) ∷ read_words h (i + 1) n

-- The list that a header block holds: word 0 is `n`, and the block numbers follow.
unfoldable pub head_blocks : Block → List ℕ
unfolding read_words
head_blocks h = read_words h 0 (h 0)

-- `for (i = 0; i < log.lh.n; i++) hb->block[i] = log.lh.block[i];`
unfoldable pub write_words : Block → ℕ → List ℕ → Block
write_words h i [] = h
write_words h i (b ∷ bs) = write_words (update h (i + 1) b) (i + 1) bs

unfoldable pub read_head : Log → Device → Log
unfolding head_blocks bread
read_head l d = record l { blocks = head_blocks (bread d l.start) }

unfoldable pub write_head : Log → Device → Device
unfolding write_words bread fill bwrite
write_head l d =
    bwrite (fill d l.start (write_words (update (bread d l.start) 0 (length l.blocks)) 0 l.blocks))
      l.start

-- One round of `install_trans`: `dst` is `log.lh.block[tail]`, and `from` its block in the log.
pub install_block : Bool → ℕ → ℕ → Device → Device
unfolding bread fill bwrite bunpin
install_block recovering from dst d =
    let written = bwrite (fill d dst (bread d from)) dst in
    if recovering then written else bunpin written dst

-- The rounds from `tail` on; `first` is `log.start + tail + 1`.
unfoldable pub install_loop : Bool → ℕ → List ℕ → Device → Device
unfolding install_block
install_loop recovering first [] d = d
install_loop recovering first (b ∷ bs) d =
    install_loop recovering (first + 1) bs (install_block recovering first b d)

unfoldable pub install_trans : Bool → Log → Device → Device
unfolding install_loop
install_trans recovering l d = install_loop recovering (l.start + 1) l.blocks d

unfoldable pub write_log_loop : ℕ → List ℕ → Device → Device
unfolding bread fill bwrite
write_log_loop first [] d = d
write_log_loop first (b ∷ bs) d =
    write_log_loop (first + 1) bs (bwrite (fill d first (bread d b)) first)

unfoldable pub write_log : Log → Device → Device
unfolding write_log_loop
write_log l d = write_log_loop (l.start + 1) l.blocks d

unfoldable pub recover_from_log : Log → Device → Log × Device
unfolding read_head install_trans write_head
recover_from_log l d =
    let l1 = read_head l d in
    let l2 = record l1 { blocks = [] } in (l2, write_head l2 (install_trans true l1 d))

-- The size test of `initlog` is on constants (124 < 1024). The log starts with no operation
-- under way.
unfoldable pub initlog : ℕ → ℕ → Device → Log × Device
unfolding recover_from_log
initlog logstart nlog d =
    recover_from_log
      (record { start = logstart; size = nlog; outstanding = 0; committing = false; blocks = [] }) d

unfoldable pub commit : Log → Device → Log × Device
unfolding write_log write_head install_trans
commit l d =
    let emptied = record l { blocks = [] } in
    if ltb 0 (length l.blocks)
    then (emptied, write_head emptied (install_trans false l (write_head l (write_log l d))))
    else (l, d)

abbrev pub max_op_blocks : ℕ
max_op_blocks = 10

abbrev pub log_size : ℕ
log_size = max_op_blocks * 3

-- C's `<` on the bit patterns of two `int`s.
unfoldable pub signed_ltb : ℕ → ℕ → Bool
signed_ltb a b = ltb ((a + 2 ^ 31) % 2 ^ 32) ((b + 2 ^ 31) % 2 ^ 32)

-- One round of the loop of `begin_op`: `none` means that it sleeps, to be tried again.
unfoldable pub begin_op : Log → Option Log
unfolding signed_ltb
begin_op l =
    if l.committing
    then none
    else if signed_ltb log_size ((length l.blocks + (l.outstanding + 1) * max_op_blocks) % 2 ^ 32)
    then none
    else some (record l { outstanding = (l.outstanding + 1) % 2 ^ 32 })

-- `end_op` up to its first `release`: the log, and `do_commit`.
unfoldable pub end_op_begin : Log → Outcome (Log × Bool)
end_op_begin l =
    let left = (l.outstanding + 2 ^ 32 - 1) % 2 ^ 32 in
    if l.committing
    then panic
    else if left == 0
    then ok (record l { outstanding = left; committing = true }, true)
    else ok (record l { outstanding = left }, false)

-- The rest of `end_op`, where `do_commit` is set.
unfoldable pub end_op_commit : Log → Device → Log × Device
unfolding commit
end_op_commit l d = let (l1, d1) = commit l d in (record l1 { committing = false }, d1)

unfoldable pub log_write : Log → Device → ℕ → Outcome (Log × Device)
unfolding signed_ltb mem bpin
log_write l d b =
    let n = length l.blocks in
    if not (signed_ltb n log_size) || not (signed_ltb n ((l.size + 2 ^ 32 - 1) % 2 ^ 32))
    then panic
    else if signed_ltb l.outstanding 1
    then panic
    else if mem b l.blocks
    then ok (l, d)
    else ok (record l { blocks = l.blocks ++ b ∷ [] }, bpin d b)
