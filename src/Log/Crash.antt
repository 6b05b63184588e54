-- ===== src/Log/Crash.antt =====
-- Crash recovery: what `recover_from_log` makes of a disk, also when it is cut off itself, and what
-- a `commit` that is cut off leaves behind after it.
use csklub_os.Base.{
  ℕ, ◌+◌, ◌*◌, ◌≤◌, ◌<◌, ◌≡◌, ◌⊎◌, inl, inr, refl, sym, ◌∙◌, subst, arith, Bool, true, false, List,
  [], ◌∷◌, length, mem, dec_lt, lt→ltb, not_lt→ltb,
}
use csklub_os.Disk.{Blocks, Device, reboot}
use csklub_os.Log.{Log, install_trans, write_head, head_blocks, commit, recover_from_log}
use csklub_os.Log.Logical.{Home, logical, logical-empty}
use csklub_os.Log.Loops.{
  install_loop-off, install_loop-power, write_head-frozen, write_head-power, write_head-blocks,
}
use csklub_os.Log.Commit.{
  IsLog, committed, cleared, mem-start, install_clear-logical, commit_atomic, headed, logged,
  headed-blocks, headed-Synced, headed-logical, logged-power, logged-head,
}

-- The header's list on the disk is a log.
abbrev pub HasLog : Log → Blocks → Type 0
HasLog l disk = IsLog l.start l.size (head_blocks (disk l.start))

-- Installing and clearing leaves the header that was there, or an empty one.
clear-head :
    (r : Bool) (l : Log) (d : Device)
    → IsLog l.start l.size l.blocks
    → HasLog l d.disk
    → HasLog l (write_head (cleared l) (install_trans r l d)).disk
unfolding install_trans
clear-head r l d w h = elim (dec_lt 0 (install_trans r l d).power) [
  | yes on ↦
      subst (IsLog l.start l.size) (sym (write_head-blocks (cleared l) (install_trans r l d) on))
        (record { homes = tt; fits = omega (arith, w.fits) })
  | no off ↦
      subst (λ k. IsLog l.start l.size (head_blocks k))
        (sym (
          write_head-frozen (cleared l) l.start (install_trans r l d) (omega arith)
          ∙ install_loop-off r l.blocks (l.start + 1) l.start d (
              mem-start l.start l.size l.blocks l.start w.homes (omega arith)
                (omega (arith, w.fits)))))
        h
]

-- A cleared header is empty, if the power lasts.
clear-empty :
    (r : Bool) (l : Log) (d : Device)
    → length l.blocks < d.power
    → head_blocks ((write_head (cleared l) (install_trans r l d)).disk l.start) ≡ []
unfolding install_trans
clear-empty r l d on =
    write_head-blocks (cleared l) (install_trans r l d)
      (omega (arith, install_loop-power r l.blocks (l.start + 1) d))

-- A recovery, at any power, keeps what the disk presents, and leaves a log on it.
pub recover-logical :
    (l : Log) (power : ℕ) (d : Device)
    → HasLog l d.disk
    → ((b : ℕ)
        → Home l.start l.size b
        → logical l.start (recover_from_log l (reboot power d)).1.disk b ≡ logical l.start d.disk b)
      × HasLog l (recover_from_log l (reboot power d)).1.disk
unfolding recover_from_log reboot
recover-logical l power d h = (
  λ b home.
      install_clear-logical true (record l { blocks = head_blocks (d.disk l.start) })
        (reboot power d) b refl h (λ k lt. refl) home,
  clear-head true (record l { blocks = head_blocks (d.disk l.start) }) (reboot power d) h h,
)

-- A recovery that is not cut off makes the disk what it presents, and empties the header.
pub recover_complete :
    (l : Log) (power : ℕ) (d : Device)
    → HasLog l d.disk
    → l.size ≤ power
    → ((b : ℕ)
        → Home l.start l.size b
        → (recover_from_log l (reboot power d)).1.disk b ≡ logical l.start d.disk b)
      × (head_blocks ((recover_from_log l (reboot power d)).1.disk l.start) ≡ [])
unfolding recover_from_log reboot
recover_complete l power d h on = (
  λ b home.
      sym (logical-empty l.start (recover_from_log l (reboot power d)).1.disk b emptied)
      ∙ (recover-logical l power d h).0 b home,
  emptied,
)
  where
    emptied : head_blocks ((recover_from_log l (reboot power d)).1.disk l.start) ≡ []
    emptied =
        clear-empty true (record l { blocks = head_blocks (d.disk l.start) }) (reboot power d)
          (omega (arith, h.fits))

-- The machine starts again and again, and each recovery is cut off after so many writes.
pub restarts : Log → List ℕ → Device → Device
restarts l [] d = d
restarts l (p ∷ ps) d = restarts l ps (recover_from_log l (reboot p d)).1

restarts-logical :
    (l : Log) (ps : List ℕ) (d : Device)
    → HasLog l d.disk
    → ((b : ℕ)
        → Home l.start l.size b
        → logical l.start (restarts l ps d).disk b ≡ logical l.start d.disk b)
      × HasLog l (restarts l ps d).disk
unfolding restarts
restarts-logical l [] d h = (λ b home. refl, h)
restarts-logical l (p ∷ ps) d h =
    let first = recover-logical l p d h in
    let later = restarts-logical l ps (recover_from_log l (reboot p d)).1 first.1 in
    (λ b home. later.0 b home ∙ first.0 b home, later.1)

-- What a `commit`, cut off or not, leaves on the disk has a log.
commit-HasLog :
    (l : Log) (d : Device)
    → IsLog l.start l.size l.blocks
    → head_blocks (d.disk l.start) ≡ []
    → HasLog l (commit l d).1.disk
unfolding commit
commit-HasLog l d w clean = elim (dec_lt 0 (length l.blocks)) [
  | yes some_ ↦ rw (lt→ltb _ _ some_) (clear-head false l (headed l d) w head)
  | no none_ ↦ rw (not_lt→ltb _ _ none_) old
]
  where
    old : HasLog l d.disk
    old = rw clean (record { homes = tt; fits = omega (arith, w.fits) })

    head : HasLog l (headed l d).disk
    head = elim (dec_lt (length l.blocks) d.power) [
      | yes on ↦ subst (IsLog l.start l.size) (headed-blocks l d w on) w
      | no off ↦
          subst (λ k. IsLog l.start l.size (head_blocks k))
            (sym (
              write_head-frozen l l.start (logged l d) (omega (arith, logged-power l d w))
              ∙ logged-head l d w))
            old
    ]

-- The crash safety of the log: `commit` is cut off after any number of disk writes, the recoveries
-- that follow are cut off anywhere too, and then one recovery has the power to finish. Then the
-- disk's home blocks are all as before the transaction, or all as the transaction makes them, and
-- the header is empty again. The log has home blocks only and fits its area, and the header on the
-- disk is empty before.
pub crash_recovery :
    (l : Log) (d : Device) (ps : List ℕ) (p : ℕ)
    → IsLog l.start l.size l.blocks
    → head_blocks (d.disk l.start) ≡ []
    → l.size ≤ p
    → let last = (recover_from_log l (reboot p (restarts l ps (commit l d).1))).1 in
      (((b : ℕ) → Home l.start l.size b → last.disk b ≡ d.disk b)
        ⊎ ((b : ℕ) → Home l.start l.size b → last.disk b ≡ committed l.blocks d b))
      × (head_blocks (last.disk l.start) ≡ [])
crash_recovery l d ps p w clean on = (
  elim (commit_atomic l d w clean) [
    | inl old ↦ inl λ b home. shown b home ∙ old b home
    | inr new ↦ inr λ b home. shown b home ∙ new b home
  ],
  done.1,
)
  where
    again :
        ((b : ℕ)
          → Home l.start l.size b
          → logical l.start (restarts l ps (commit l d).1).disk b
            ≡ logical l.start (commit l d).1.disk b)
        × HasLog l (restarts l ps (commit l d).1).disk
    again = restarts-logical l ps (commit l d).1 (commit-HasLog l d w clean)

    done :
        ((b : ℕ)
          → Home l.start l.size b
          → (recover_from_log l (reboot p (restarts l ps (commit l d).1))).1.disk b
            ≡ logical l.start (restarts l ps (commit l d).1).disk b)
        × (head_blocks
              ((recover_from_log l (reboot p (restarts l ps (commit l d).1))).1.disk l.start)
            ≡ [])
    done = recover_complete l p (restarts l ps (commit l d).1) again.1 on

    shown :
        (b : ℕ)
        → Home l.start l.size b
        → (recover_from_log l (reboot p (restarts l ps (commit l d).1))).1.disk b
          ≡ logical l.start (commit l d).1.disk b
    shown b home = done.0 b home ∙ again.0 b home

mem-none : (bs : List ℕ) (b : ℕ) → length bs ≡ 0 → mem b bs ≡ false
unfolding mem
mem-none [] b e = refl
mem-none (c ∷ cs) b e = absurd (omega arith)

-- A `commit` with the power for its writes installs the transaction on the disk and empties the
-- header. The log has home blocks only and fits its area, and the header on the disk is empty.
pub commit_complete :
    (l : Log) (d : Device)
    → IsLog l.start l.size l.blocks
    → head_blocks (d.disk l.start) ≡ []
    → 2 * length l.blocks + 2 ≤ d.power
    → ((b : ℕ) → Home l.start l.size b → (commit l d).1.disk b ≡ committed l.blocks d b)
      × (head_blocks ((commit l d).1.disk l.start) ≡ [])
unfolding commit
commit_complete l d w clean on = elim (dec_lt 0 (length l.blocks)) [
  | yes some_ ↦ rw (lt→ltb _ _ some_) (
    λ b home.
        sym (logical-empty l.start _ b emptied)
        ∙ install_clear-logical false l (headed l d) b (headed-blocks l d w lasts) w
            (headed-Synced l d w lasts) home
        ∙ headed-logical l d w lasts b home,
    emptied,
  )
  | no none_ ↦ rw (not_lt→ltb _ _ none_) (λ b home. rw (mem-none l.blocks b (omega arith)), clean)
]
  where
    lasts : length l.blocks < d.power
    lasts = omega arith

    emptied :
        head_blocks ((write_head (cleared l) (install_trans false l (headed l d))).disk l.start)
        ≡ []
    emptied =
        clear-empty false l (headed l d)
          (omega (arith, logged-power l d w, write_head-power l (logged l d)))
