-- ===== src/Log/Commit.antt =====
-- `commit` is atomic: wherever the machine stops in it, the disk presents the old contents or the
-- new ones.
use csklub_os.Base.{
  ℕ, zero, suc, ◌+◌, ◌-◌, ◌≤◌, ◌<◌, ◌≡◌, ◌⊎◌, inl, inr, refl, sym, ◌∙◌, ap, subst, fun_ext, arith,
  Bool, false, List, [], ◌∷◌, length, All, if◌then◌else◌, mem, dec_lt, lt→ltb, not_lt→ltb,
}
use csklub_os.Disk.{Blocks, Device}
use csklub_os.Log.{Log, install_loop, write_head, write_log, install_trans, head_blocks, commit}
use csklub_os.Log.Logical.{
  Home, Stored, overlay, overlay-Stored, overlay-agree, logical, logical-empty, logical-agree,
}
use csklub_os.Log.Loops.{
  write_log_loop-off, write_log_loop-power, write_log_loop-cache, write_log_loop-disk,
  install_loop-off, install_loop-power, install_loop-frozen, install_loop-done, write_head-off,
  write_head-frozen, write_head-power, write_head-blocks,
}

-- A log that fits its area of the disk, of home blocks only.
pub record IsLog (start size : ℕ) (blocks : List ℕ) : Type 0 where
  pub homes : All (Home start size) blocks
  pub fits : length blocks < size

-- A home block's contents after the transaction: the logged ones from the cache.
abbrev pub committed : List ℕ → Device → Blocks
committed bs d b = if mem b bs then d.cache b else d.disk b

pub mem-start :
    (start size : ℕ) (bs : List ℕ) (b : ℕ)
    → All (Home start size) bs
    → start ≤ b
    → b < start + size
    → mem b bs ≡ false
unfolding mem
mem-start start size [] b h lo hi = refl
mem-start start size (c ∷ cs) b h lo hi = ground (arith, mem-start start size cs b h.1 lo hi)

-- Installing, at any power, keeps what the disk presents.
pub install-logical :
    (r : Bool) (start size : ℕ) (d : Device) (first b : ℕ)
    → IsLog start size (head_blocks (d.disk start))
    → logical start (install_loop r first (head_blocks (d.disk start)) d).disk b
      ≡ logical start d.disk b
install-logical r start size d first b w = sym (
    logical-agree start size d.disk (install_loop r first bs d).disk b
      (sym (
        install_loop-off r bs first start d
          (mem-start start size bs start w.homes (omega arith) (omega arith))))
      w.fits
      (λ k lo hi. sym (install_loop-off r bs first k d (mem-start start size bs k w.homes lo hi)))
      (λ m. sym (install_loop-off r bs first b d m)))
  where
    bs : List ℕ
    bs = head_blocks (d.disk start)

abbrev pub cleared : Log → Log
cleared l = record l { blocks = [] }

-- The log's buffers hold what its blocks hold.
abbrev pub Synced : Log → Device → Type 0
Synced l d = (k : ℕ) → k < length l.blocks → d.cache (l.start + 1 + k) ≡ d.disk (l.start + 1 + k)

logical-frozen :
    (start : ℕ) (disk disk' : Blocks) (b : ℕ)
    → ((c : ℕ) → disk c ≡ disk' c)
    → logical start disk b ≡ logical start disk' b
logical-frozen start disk disk' b same = ap (λ k. logical start k b) (fun_ext same)

-- Installing the header's list and clearing the header, at any power, keeps what the disk presents.
pub install_clear-logical :
    (r : Bool) (l : Log) (d : Device) (b : ℕ)
    → l.blocks ≡ head_blocks (d.disk l.start)
    → IsLog l.start l.size l.blocks
    → Synced l d
    → Home l.start l.size b
    → logical l.start (write_head (cleared l) (install_trans r l d)).disk b
      ≡ logical l.start d.disk b
unfolding install_trans logical
install_clear-logical r l d b same w synced home = elim (dec_lt 0 d3.power) [
  | yes on ↦
      logical-empty l.start (write_head (cleared l) d3).disk b (write_head-blocks (cleared l) d3 on)
      ∙ (write_head-off (cleared l) b d3 (omega (arith, w.fits))).0
      ∙ install_loop-done l.start l.size r l.blocks (l.start + 1) b d (omega arith)
          (omega (arith, w.fits)) w.homes
          (omega (arith, install_loop-power r l.blocks (l.start + 1) d))
      ∙ overlay-agree l.blocks d.cache d.disk (l.start + 1) d.disk d.disk b synced (λ _. refl)
      ∙ ap (λ bs. overlay d.disk (l.start + 1) bs d.disk b) same
  | no off ↦
      logical-frozen l.start (write_head (cleared l) d3).disk d3.disk b
        (λ c. write_head-frozen (cleared l) c d3 (omega arith))
      ∙ ap (λ bs. logical l.start (install_loop r (l.start + 1) bs d).disk b) same
      ∙ install-logical r l.start l.size d (l.start + 1) b
          (subst (λ bs. IsLog l.start l.size bs) same w)
]
  where
    d3 : Device
    d3 = install_loop r (l.start + 1) l.blocks d

Stored-agree :
    (cs : List ℕ) (src src' : Blocks) (first : ℕ) (val : Blocks) (k : ℕ)
    → Stored src first cs val
    → Stored src' first cs val
    → k < length cs
    → src (first + k) ≡ src' (first + k)
Stored-agree [] src src' first val k s t lt = absurd (omega arith)
Stored-agree (c ∷ cs) src src' first val zero s t lt =
    ap src (omega arith) ∙ s.0 ∙ sym t.0 ∙ ap src' (omega arith)
Stored-agree (c ∷ cs) src src' first val (suc k) s t lt =
    ap src (omega arith)
    ∙ Stored-agree cs src src' (first + 1) val k s.1 t.1 (omega arith)
    ∙ ap src' (omega arith)

abbrev pub logged : Log → Device → Device
logged l d = write_log l d

abbrev pub headed : Log → Device → Device
headed l d = write_head l (write_log l d)

-- The steps of `commit` before the installation.
module _ (l : Log) (d : Device) (w : IsLog l.start l.size l.blocks) where
  pub logged-power : (write_log l d).power ≡ d.power - length l.blocks
  unfolding write_log
  logged-power = write_log_loop-power l.blocks (l.start + 1) d

  -- A home block is as before on the disk.
  logged-Home : (b : ℕ) → Home l.start l.size b → (write_log l d).disk b ≡ d.disk b
  unfolding write_log
  logged-Home b home = (write_log_loop-off l.blocks (l.start + 1) b d (omega (arith, w.fits))).0

  pub logged-head : (write_log l d).disk l.start ≡ d.disk l.start
  unfolding write_log
  logged-head = (write_log_loop-off l.blocks (l.start + 1) l.start d (omega arith)).0

  -- If the power lasts to the header, the disk's header lists the blocks.
  module _ (on : length l.blocks < d.power) where
    pub headed-blocks : l.blocks ≡ head_blocks ((headed l d).disk l.start)
    headed-blocks = sym (write_head-blocks l (logged l d) (omega (arith, logged-power)))

    logged-disk : Stored (logged l d).disk (l.start + 1) l.blocks d.cache
    unfolding write_log
    logged-disk =
        write_log_loop-disk l.start l.size l.blocks (l.start + 1) d (omega arith)
          (omega (arith, w.fits)) w.homes (omega arith)

    logged-cache : Stored (logged l d).cache (l.start + 1) l.blocks d.cache
    unfolding write_log
    logged-cache =
        write_log_loop-cache l.start l.size l.blocks (l.start + 1) d (omega arith)
          (omega (arith, w.fits)) w.homes

    pub headed-Synced : Synced l (headed l d)
    headed-Synced k lt =
        (write_head-off l (l.start + 1 + k) (logged l d) (omega arith)).1
        ∙ Stored-agree l.blocks (logged l d).cache (logged l d).disk (l.start + 1) d.cache k
            logged-cache logged-disk lt
        ∙ sym (write_head-off l (l.start + 1 + k) (logged l d) (omega arith)).0

    -- And the disk presents the new contents.
    pub headed-logical :
        (b : ℕ)
        → Home l.start l.size b
        → logical l.start (headed l d).disk b ≡ committed l.blocks d b
    unfolding logical
    headed-logical b home =
        ap (λ bs. overlay (headed l d).disk (l.start + 1) bs (headed l d).disk b)
          (sym headed-blocks)
        ∙ overlay-agree l.blocks (headed l d).disk (logged l d).disk (l.start + 1) (headed l d).disk
            d.disk b (λ k lt. (write_head-off l (l.start + 1 + k) (logged l d) (omega arith)).0)
            (λ _. (write_head-off l b (logged l d) (omega (arith, w.fits))).0 ∙ logged-Home b home)
        ∙ overlay-Stored l.blocks (logged l d).disk (l.start + 1) d.disk d.cache b logged-disk

-- Before the header is written the disk presents the old contents.
stopped-logical :
    (l : Log) (d : Device) (b : ℕ)
    → IsLog l.start l.size l.blocks
    → head_blocks (d.disk l.start) ≡ []
    → d.power ≤ length l.blocks
    → Home l.start l.size b
    → logical l.start (write_head (cleared l) (install_trans false l (headed l d))).disk b
      ≡ d.disk b
unfolding install_trans
stopped-logical l d b w clean off home =
    logical-frozen l.start (write_head (cleared l) (install_trans false l (headed l d))).disk
      (logged l d).disk b
      (λ c.
        write_head-frozen (cleared l) c (install_trans false l (headed l d)) none_left
        ∙ installed c
        ∙ write_head-frozen l c (logged l d) (omega (arith, logged-power l d w)))
    ∙ logical-empty l.start (logged l d).disk b (ap head_blocks (logged-head l d w) ∙ clean)
    ∙ logged-Home l d w b home
  where
    headed_off : (headed l d).power ≡ 0
    headed_off = omega (arith, logged-power l d w, write_head-power l (logged l d))

    none_left : (install_trans false l (headed l d)).power ≡ 0
    none_left =
        omega (arith, headed_off, install_loop-power false l.blocks (l.start + 1) (headed l d))

    installed : (c : ℕ) → (install_trans false l (headed l d)).disk c ≡ (headed l d).disk c
    installed c = install_loop-frozen false l.blocks (l.start + 1) c (headed l d) headed_off

-- Wherever the machine stops in `commit`, the disk presents to the next recovery either the old
-- contents of every home block, or of every home block the new ones: the cache's of the logged
-- blocks, the old ones of all others. The log has home blocks only and fits its area, and the
-- header on the disk is empty.
pub commit_atomic :
    (l : Log) (d : Device)
    → IsLog l.start l.size l.blocks
    → head_blocks (d.disk l.start) ≡ []
    → ((b : ℕ) → Home l.start l.size b → logical l.start (commit l d).1.disk b ≡ d.disk b)
      ⊎ ((b : ℕ)
          → Home l.start l.size b
          → logical l.start (commit l d).1.disk b ≡ committed l.blocks d b)
unfolding commit
commit_atomic l d w clean = elim (dec_lt 0 (length l.blocks)) [
  | yes some_ ↦ elim (dec_lt (length l.blocks) d.power) [
    | yes on ↦ inr λ b home. rw (lt→ltb _ _ some_) (
        install_clear-logical false l (headed l d) b (headed-blocks l d w on) w
          (headed-Synced l d w on) home
        ∙ headed-logical l d w on b home)
    | no off ↦
        inl λ b home. rw (lt→ltb _ _ some_) (stopped-logical l d b w clean (omega arith) home)
  ]
  | no none_ ↦ inl λ b home. rw (not_lt→ltb _ _ none_) (logical-empty l.start d.disk b clean)
]
