-- ===== src/Log/Loops.antt =====
-- The two loops of log.c and `write_head`, at any number of writes that still work: what they change
-- on the disk and in the cache, and what they have done if the power lasts.
use csklub_os.Base.{
  ℕ, ◌+◌, ◌-◌, ◌≤◌, ◌<◌, ◌≡◌, ◌≢◌, ◌⊎◌, inl, refl, ◌∙◌, ap, arith, Bool, false, List, [], ◌∷◌,
  length, All, All-map, ◌==◌, if◌then◌else◌, mem,
}
use csklub_os.Disk.{Block, Blocks, Device, update, bread, fill, bwrite}
use csklub_os.Log.{
  Log, write_log_loop, install_loop, install_block, write_head, head_blocks, write_words,
}
use csklub_os.Log.Head.{head_blocks-write}
use csklub_os.Log.Logical.{Home, Stored, overlay, overlay-agree}

bwrite-off : (d : Device) (c b : ℕ) → b ≢ c → (bwrite d c).disk b ≡ d.disk b
unfolding bwrite
bwrite-off d c b ne = ground arith

pub write_log_loop-off :
    (bs : List ℕ) (first b : ℕ) (d : Device)
    → (b < first) ⊎ (first + length bs ≤ b)
    → ((write_log_loop first bs d).disk b ≡ d.disk b)
      × ((write_log_loop first bs d).cache b ≡ d.cache b)
unfolding write_log_loop
write_log_loop-off [] first b d o = (refl, refl)
write_log_loop-off (c ∷ cs) first b d o = ground (
  arith,
  write_log_loop-off cs (first + 1) b (bwrite (fill d first (bread d c)) first) (omega arith),
)

pub write_log_loop-power :
    (bs : List ℕ) (first : ℕ) (d : Device) → (write_log_loop first bs d).power ≡ d.power - length bs
unfolding write_log_loop
write_log_loop-power [] first d = omega arith
write_log_loop-power (c ∷ cs) first d =
    ground (arith, write_log_loop-power cs (first + 1) (bwrite (fill d first (bread d c)) first))

Stored-val :
    (cs : List ℕ) (src : Blocks) (first : ℕ) (val val' : Blocks)
    → All (λ c. val c ≡ val' c) cs
    → Stored src first cs val
    → Stored src first cs val'
Stored-val [] src first val val' e s = tt
Stored-val (c ∷ cs) src first val val' e s =
    (s.0 ∙ e.0, Stored-val cs src (first + 1) val val' e.1 s.1)

-- One round of either loop: buffer `b` gets `v` and is written.
round-cache :
    (d : Device) (b c : ℕ) (v : Block)
    → (bwrite (fill d b v) b).cache c ≡ (if c == b then v else d.cache c)
unfolding bwrite fill
round-cache d b c v = ground arith

round-disk :
    (d : Device) (b c : ℕ) (v : Block)
    → 0 < d.power
    → (bwrite (fill d b v) b).disk c ≡ (if c == b then v else d.disk c)
unfolding bwrite fill
round-disk d b c v p = ground arith

round-power : (d : Device) (b : ℕ) (v : Block) → (bwrite (fill d b v) b).power ≡ d.power - 1
unfolding bwrite fill
round-power d b v = ground arith

pub install_block-cache :
    (r : Bool) (from dst b : ℕ) (d : Device)
    → (install_block r from dst d).cache b ≡ (if b == dst then d.cache from else d.cache b)
unfolding install_block
install_block-cache r from dst b d = ground arith

install_block-disk :
    (r : Bool) (from dst b : ℕ) (d : Device)
    → 0 < d.power
    → (install_block r from dst d).disk b ≡ (if b == dst then d.cache from else d.disk b)
unfolding install_block
install_block-disk r from dst b d p = ground arith

install_block-off :
    (r : Bool) (from dst b : ℕ) (d : Device)
    → (b == dst) ≡ false
    → (install_block r from dst d).disk b ≡ d.disk b
unfolding install_block
install_block-off r from dst b d ne = ground arith

install_block-frozen :
    (r : Bool) (from dst b : ℕ) (d : Device)
    → d.power ≡ 0
    → (install_block r from dst d).disk b ≡ d.disk b
unfolding install_block
install_block-frozen r from dst b d z = ground arith

install_block-power :
    (r : Bool) (from dst : ℕ) (d : Device) → (install_block r from dst d).power ≡ d.power - 1
unfolding install_block
install_block-power r from dst d = ground arith

pub install_loop-power :
    (r : Bool) (bs : List ℕ) (first : ℕ) (d : Device)
    → (install_loop r first bs d).power ≡ d.power - length bs
unfolding install_loop
install_loop-power r [] first d = omega arith
install_loop-power r (c ∷ cs) first d = omega (
  arith,
  install_loop-power r cs (first + 1) (install_block r first c d),
  install_block-power r first c d,
)

-- Installing writes to the listed blocks only, and to none once the power is gone.
pub install_loop-off :
    (r : Bool) (bs : List ℕ) (first b : ℕ) (d : Device)
    → mem b bs ≡ false
    → (install_loop r first bs d).disk b ≡ d.disk b
unfolding install_loop mem
install_loop-off r [] first b d m = refl
install_loop-off r (c ∷ cs) first b d m =
    install_loop-off r cs (first + 1) b (install_block r first c d) (ground arith)
    ∙ install_block-off r first c b d (ground arith)

pub install_loop-frozen :
    (r : Bool) (bs : List ℕ) (first b : ℕ) (d : Device)
    → d.power ≡ 0
    → (install_loop r first bs d).disk b ≡ d.disk b
unfolding install_loop
install_loop-frozen r [] first b d z = refl
install_loop-frozen r (c ∷ cs) first b d z =
    install_loop-frozen r cs (first + 1) b (install_block r first c d)
      (omega (arith, install_block-power r first c d))
    ∙ install_block-frozen r first c b d z

module _ (start size : ℕ) where
  -- A round in the log leaves the buffers of the home blocks alone.
  round-Home :
      (cs : List ℕ) (first c : ℕ) (d : Device)
      → start < first
      → first < start + size
      → All (Home start size) cs
      → All (λ k. (bwrite (fill d first (bread d c)) first).cache k ≡ d.cache k) cs
  round-Home cs first c d lo hi homes =
      All-map (Home start size) (λ k. (bwrite (fill d first (bread d c)) first).cache k ≡ d.cache k)
        cs (λ k home. ground (arith, round-cache d first k (bread d c))) homes

  -- The log's buffers hold what the buffers of the listed blocks held.
  pub write_log_loop-cache :
      (bs : List ℕ) (first : ℕ) (d : Device)
      → start < first
      → first + length bs ≤ start + size
      → All (Home start size) bs
      → Stored (write_log_loop first bs d).cache first bs d.cache
  unfolding write_log_loop bread
  write_log_loop-cache [] first d lo hi homes = tt
  write_log_loop-cache (c ∷ cs) first d lo hi homes =
      let d1 = bwrite (fill d first (bread d c)) first in
      (
        (write_log_loop-off cs (first + 1) first d1 (inl (omega arith))).1 ∙ head,
        Stored-val cs (write_log_loop (first + 1) cs d1).cache (first + 1) d1.cache d.cache
            (round-Home cs first c d lo (omega arith) homes.1)
            (write_log_loop-cache cs (first + 1) d1 (omega arith) (omega arith) homes.1),
      )
    where
      head : (bwrite (fill d first (bread d c)) first).cache first ≡ d.cache c
      head = ground (arith, round-cache d first first (d.cache c))

  -- So do the log's blocks on the disk, if the power lasts for all of them.
  pub write_log_loop-disk :
      (bs : List ℕ) (first : ℕ) (d : Device)
      → start < first
      → first + length bs ≤ start + size
      → All (Home start size) bs
      → length bs ≤ d.power
      → Stored (write_log_loop first bs d).disk first bs d.cache
  unfolding write_log_loop bread
  write_log_loop-disk [] first d lo hi homes p = tt
  write_log_loop-disk (c ∷ cs) first d lo hi homes p =
      let d1 = bwrite (fill d first (bread d c)) first in
      (
        (write_log_loop-off cs (first + 1) first d1 (inl (omega arith))).0 ∙ head,
        Stored-val cs (write_log_loop (first + 1) cs d1).disk (first + 1) d1.cache d.cache
            (round-Home cs first c d lo (omega arith) homes.1)
            (write_log_loop-disk cs (first + 1) d1 (omega arith) (omega arith) homes.1
              (omega (arith, round-power d first (bread d c)))),
      )
    where
      head : (bwrite (fill d first (bread d c)) first).disk first ≡ d.cache c
      head = ground (arith, round-disk d first first (d.cache c))

  -- If the power lasts, installing makes the disk what the header says that it is.
  pub install_loop-done :
      (r : Bool) (bs : List ℕ) (first b : ℕ) (d : Device)
      → start < first
      → first + length bs ≤ start + size
      → All (Home start size) bs
      → length bs ≤ d.power
      → (install_loop r first bs d).disk b ≡ overlay d.cache first bs d.disk b
  unfolding install_loop overlay
  install_loop-done r [] first b d lo hi homes p = refl
  install_loop-done r (c ∷ cs) first b d lo hi homes p =
      install_loop-done r cs (first + 1) b d1 (omega arith) (omega arith) homes.1
        (omega (arith, install_block-power r first c d))
      ∙ overlay-agree cs d1.cache d.cache (first + 1) d1.disk (update d.disk c (d.cache first)) b
          (λ k lt. ground (arith, install_block-cache r first c (first + 1 + k) d))
          (λ m. install_block-disk r first c b d (omega arith))
    where
      d1 : Device
      d1 = install_block r first c d

pub write_head-off :
    (l : Log) (b : ℕ) (d : Device)
    → b ≢ l.start
    → ((write_head l d).disk b ≡ d.disk b) × ((write_head l d).cache b ≡ d.cache b)
unfolding write_head
write_head-off l b d ne = ground arith

pub write_head-frozen :
    (l : Log) (b : ℕ) (d : Device) → d.power ≡ 0 → (write_head l d).disk b ≡ d.disk b
unfolding write_head
write_head-frozen l b d z = ground arith

pub write_head-power : (l : Log) (d : Device) → (write_head l d).power ≡ d.power - 1
unfolding write_head
write_head-power l d = ground arith

round-at : (d : Device) (b : ℕ) (v : Block) → 0 < d.power → (bwrite (fill d b v) b).disk b ≡ v
round-at d b v p = ground (arith, round-disk d b b v p)

-- The header that `write_head` leaves on the disk lists the log's blocks.
pub write_head-blocks :
    (l : Log) (d : Device) → 0 < d.power → head_blocks ((write_head l d).disk l.start) ≡ l.blocks
unfolding write_head
write_head-blocks l d p =
    let v = write_words (update (d.cache l.start) 0 (length l.blocks)) 0 l.blocks in
    ap head_blocks (round-at d l.start v p) ∙ head_blocks-write (d.cache l.start) l.blocks
