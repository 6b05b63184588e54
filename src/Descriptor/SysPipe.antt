-- ===== src/Descriptor/SysPipe.antt =====
-- `sys_pipe` on every branch.
use csklub_os.Base.{
  ℕ, suc, ◌+◌, ◌^◌, ◌<◌, ◌≡◌, ◌≢◌, refl, sym, ◌∙◌, ap, subst, arith, Bool, true, false, List, [],
  ◌∷◌, ◌++◌, length, Option, none, some, ok, ◌==◌, get_elem?, set, get-set, get-set_ne, set-set,
  set_same, set-set_comm, inl, inr, Bool-cases, Option-cases, ◌>>=◌,
}
use csklub_os.Bio.Held.{occurs, occurs-cons}
use csklub_os.FileTable.{File, Closing, last_close, close_pipe}
use csklub_os.FileTable.Counted.{FileTable, IsCounted}
use csklub_os.FileTable.Close.{Closed, fileclose-Closed}
use csklub_os.Descriptor.{
  After, free_slot, fdalloc, pipe_end, pipealloc, close_both, sys_pipe, failed, succeeded,
}
use csklub_os.Descriptor.Slots.{held, IsLowest, free_slot-IsLowest}
use csklub_os.Descriptor.Counts.{shared, placed-IsCounted, IsCounted-same, occurs-held, length-held}
use csklub_os.Descriptor.PipeEnds.{table, Allocated, no_pipe, both_ends, pipealloc-Allocated}

-- A file without another reference is let go of.
Closed-last_close :
    (t : FileTable) (i : ℕ) (hs : List ℕ) (f : File)
    → (c : Closed t i hs) → get_elem? t.files i ≡ some f
    → occurs i hs ≡ 0
    → c.closing ≡ last_close f
Closed-last_close t i hs f c stood last =
    let same : c.file ≡ f = cc (c.stood, stood) in
    let now : (occurs i hs == 0) ≡ true = ground (arith, last) in
    rw now at c.lets_go ∙ ap last_close same

-- Both ends of a new pipe are closed, which lets go of the pipe for reading and for writing.
close_both-ok :
    (p rf wf : ℕ) (hs : List ℕ) (ofile : List (Option ℕ)) (gs : List File) (f g : File)
    → rf ≢ wf
    → occurs rf hs ≡ 0
    → occurs wf hs ≡ 0
    → get_elem? gs rf ≡ some (pipe_end p false f)
    → get_elem? gs wf ≡ some (pipe_end p true g)
    → IsCounted (table (wf ∷ rf ∷ hs) gs)
    → (fs : List File) × (close_both rf wf ofile gs
        ≡ ok (failed ofile fs (close_pipe p false ∷ close_pipe p true ∷ [])))
      × IsCounted (table hs fs)
unfolding close_both last_close
close_both-ok p rf wf hs ofile gs f g apart fresh_r fresh_w at_r at_w w =
    let c = fileclose-Closed (table (wf ∷ rf ∷ hs) gs) rf (wf ∷ []) hs w refl in
    let d = fileclose-Closed (table (wf ∷ hs) c.files) wf [] hs c.counts refl in
    let first : c.closing ≡ close_pipe p false =
      Closed-last_close (table (wf ∷ rf ∷ hs) gs) rf (wf ∷ hs) (pipe_end p false f) c at_r
        (ground (arith, fresh_r, occurs-cons rf wf hs, apart)) in
    let second : d.closing ≡ close_pipe p true =
      Closed-last_close (table (wf ∷ hs) c.files) wf hs (pipe_end p true g) d
        (c.others wf apart ∙ at_w) fresh_w in
    (d.files, rw (close_both, c.does, d.does, first, second) refl, d.counts)

-- Why a pipe that was made is taken back: a descriptor is missing, or the user's memory could not be
-- written.
pub data Unplaced (copied : Bool) (ofile : List (Option ℕ)) (rf : ℕ) : Type 0 where
  no_first : free_slot ofile ≡ none → Unplaced copied ofile rf
  no_second :
      (fd0 : ℕ)
      → free_slot ofile ≡ some fd0
      → free_slot (set ofile fd0 (some rf)) ≡ none
      → Unplaced copied ofile rf
  not_copied : copied ≡ false → Unplaced copied ofile rf

-- What `pipe` comes to.
pub data Piped (mem : Option ℕ) (copied : Bool) (ofile : List (Option ℕ)) (files : List File)
    : After (ℕ × ℕ) → Type 0 where
  nothing_made :
      (gs : List File) (cs : List Closing)
      → pipealloc mem files ≡ ok (none, gs, cs)
      → Piped mem copied ofile files (failed ofile gs cs)
  taken_back :
      (p rf wf : ℕ) (gs fs : List File)
      → mem ≡ some p
      → pipealloc mem files ≡ ok (some (rf, wf), gs, [])
      → Unplaced copied ofile rf
      → Piped mem copied ofile files (failed ofile fs (close_pipe p false ∷ close_pipe p true ∷ []))
  made :
      (p rf wf fd0 fd1 : ℕ) (gs : List File) (f g : File)
      → mem ≡ some p
      → copied ≡ true
      → rf ≢ wf
      → get_elem? gs rf ≡ some (pipe_end p false f)
      → get_elem? gs wf ≡ some (pipe_end p true g)
      → IsLowest ofile fd0
      → IsLowest (set ofile fd0 (some rf)) fd1
      → Piped mem copied ofile files
          (succeeded (fd0, fd1) (set (set ofile fd0 (some rf)) fd1 (some wf)) gs [])

set_back :
    (ofile : List (Option ℕ)) (fd : ℕ) (f : ℕ)
    → get_elem? ofile fd ≡ some none
    → set (set ofile fd (some f)) fd none ≡ ofile
set_back ofile fd f free = set-set ofile fd (some f) none ∙ set_same ofile fd none free

set_back_both :
    (ofile : List (Option ℕ)) (fd0 fd1 rf wf : ℕ)
    → get_elem? ofile fd0 ≡ some none
    → get_elem? (set ofile fd0 (some rf)) fd1 ≡ some none
    → set (set (set (set ofile fd0 (some rf)) fd1 (some wf)) fd0 none) fd1 none ≡ ofile
set_back_both ofile fd0 fd1 rf wf free0 free1 =
    let os = set ofile fd0 (some rf) in
    let taken : get_elem? os fd0 ≡ some (some rf) = get-set ofile fd0 none (some rf) free0 in
    let apart : fd1 ≢ fd0 = λ e. cc (taken, subst (λ k. get_elem? os k ≡ some none) e free1) in
    let other : get_elem? ofile fd1 ≡ some none =
      sym (get-set_ne ofile fd0 fd1 (some rf) (λ e. apart (sym e))) ∙ free1 in
    ap (λ qs. set qs fd1 none)
      (set-set_comm os fd1 fd0 (some wf) none apart
        ∙ ap (λ qs. set qs fd1 (some wf)) (set_back ofile fd0 rf free0))
    ∙ set_back ofile fd1 wf other

-- Two files are put into two descriptors.
placed-both :
    (ofile : List (Option ℕ)) (others : List ℕ) (fd0 fd1 rf wf : ℕ) (gs : List File)
    → get_elem? ofile fd0 ≡ some none
    → get_elem? (set ofile fd0 (some rf)) fd1 ≡ some none
    → IsCounted (table (wf ∷ rf ∷ (held ofile ++ others)) gs)
    → IsCounted (shared (set (set ofile fd0 (some rf)) fd1 (some wf)) others gs)
placed-both ofile others fd0 fd1 rf wf gs free0 free1 w =
    let os = set ofile fd0 (some rf) in
    placed-IsCounted os others fd1 wf gs free1 (
      IsCounted-same gs (wf ∷ rf ∷ (held ofile ++ others)) (wf ∷ (held os ++ others)) w
        (λ k. omega (
          arith,
          occurs-cons k wf (held os ++ others),
          occurs-cons k wf (rf ∷ (held ofile ++ others)),
          occurs-held ofile others fd0 rf k free0,
        ))
        (ap suc (length-held ofile others fd0 rf free0)))

-- What follows `pipealloc`.
sys_pipe-after :
    (mem : Option ℕ) (copied : Bool) (ofile : List (Option ℕ)) (others : List ℕ) (files : List File)
    (r : Option (ℕ × ℕ) × List File × List Closing)
    → pipealloc mem files ≡ ok r
    → Allocated mem (held ofile ++ others) r
    → (q : After (ℕ × ℕ)) × (sys_pipe mem copied ofile files ≡ ok q)
      × Piped mem copied ofile files q
      × IsCounted (shared q.ofile others q.files)
unfolding sys_pipe fdalloc
sys_pipe-after mem copied ofile others files r does (no_pipe gs cs c) =
    (failed ofile gs cs, rw (sys_pipe, does) refl, nothing_made gs cs does, c)
sys_pipe-after mem copied ofile others files r does
      (both_ends p rf wf gs f g m apart fresh_r fresh_w at_r at_w c) =
    let (fs, closes, d) =
      close_both-ok p rf wf (held ofile ++ others) ofile gs f g apart fresh_r fresh_w at_r at_w c in
    let back = taken_back p rf wf gs fs m does in
    elim (Option-cases (free_slot ofile)) [
      | inl full ↦ (
        failed ofile fs (close_pipe p false ∷ close_pipe p true ∷ []),
        rw (sys_pipe, does, ◌>>=◌, fdalloc, full, closes) refl,
        back (no_first full),
        d,
      )
      | inr (fd0, e0) ↦
          let low0 = free_slot-IsLowest ofile fd0 e0 in
          elim (Option-cases (free_slot (set ofile fd0 (some rf)))) [
            | inl full ↦ (
              failed ofile fs (close_pipe p false ∷ close_pipe p true ∷ []),
              rw
                  (
                    sys_pipe,
                    does,
                    ◌>>=◌,
                    fdalloc,
                    e0,
                    full,
                    set_back ofile fd0 rf low0.unused,
                    closes,
                  )
                  refl,
              back (no_second fd0 e0 full),
              d,
            )
            | inr (fd1, e1) ↦
                let low1 = free_slot-IsLowest (set ofile fd0 (some rf)) fd1 e1 in
                elim (Bool-cases copied) [
                  | inl is_copied ↦ (
                    succeeded (fd0, fd1) (set (set ofile fd0 (some rf)) fd1 (some wf)) gs [],
                    rw (sys_pipe, does, ◌>>=◌, fdalloc, e0, e1, is_copied) refl,
                    made p rf wf fd0 fd1 gs f g m is_copied apart at_r at_w low0 low1,
                    placed-both ofile others fd0 fd1 rf wf gs low0.unused low1.unused c,
                  )
                  | inr failed_copy ↦ (
                    failed ofile fs (close_pipe p false ∷ close_pipe p true ∷ []),
                    rw
                        (
                          sys_pipe,
                          does,
                          ◌>>=◌,
                          fdalloc,
                          e0,
                          e1,
                          failed_copy,
                          set_back_both ofile fd0 fd1 rf wf low0.unused low1.unused,
                          closes,
                        )
                        refl,
                    back (not_copied failed_copy),
                    d,
                  )
                ]
          ]
    ]

-- With the reference counts right and room for two more references, `sys_pipe` returns, and the
-- counts are right afterwards. If it fails, the descriptors are as they were, and a pipe that was
-- made is let go of for reading and for writing. If it succeeds, the user's memory was written, and
-- the two lowest descriptors that were not in use stand for the two ends of the pipe.
pub sys_pipe-Piped :
    (mem : Option ℕ) (copied : Bool) (ofile : List (Option ℕ)) (others : List ℕ) (files : List File)
    → IsCounted (shared ofile others files)
    → length (held ofile ++ others) + 2 < 2 ^ 31
    → (r : After (ℕ × ℕ)) × (sys_pipe mem copied ofile files ≡ ok r)
      × Piped mem copied ofile files r
      × IsCounted (shared r.ofile others r.files)
sys_pipe-Piped mem copied ofile others files w few =
    let (r, does, a) = pipealloc-Allocated mem (held ofile ++ others) files w few in
    sys_pipe-after mem copied ofile others files r does a
