-- ===== src/Descriptor/Calls.antt =====
-- `sys_dup` and `sys_close` keep the reference counts.
use csklub_os.Base.{
  ℕ, ◌+◌, ◌^◌, ◌<◌, ◌≡◌, ◌≢◌, refl, sym, ◌∙◌, ap, subst, arith, true, List, [], ◌∷◌, ◌++◌, length,
  Option, none, some, ok, get_elem?, set, ltb, inl, inr, Bool-cases, Option-cases, eq→==, ne→==,
}
use csklub_os.Bio.Held.{occurs}
use csklub_os.FileTable.{
  FileKind, fd_none, fd_pipe, fd_inode, fd_device, close_pipe, drop_inode, File, last_close,
  Closing, done,
}
use csklub_os.FileTable.Counted.{IsCounted}
use csklub_os.FileTable.Close.{filedup-held, duplicated-IsCounted}
use csklub_os.Descriptor.{
  After, descriptor_count, argfd, free_slot, fdalloc, sys_dup, sys_close, failed, succeeded,
}
use csklub_os.Descriptor.Slots.{held, IsLowest, free_slot-IsLowest, free_slot-full}
use csklub_os.Descriptor.Counts.{shared, placed-IsCounted, get-occurs, set-Closed}

-- The descriptor stands for the file `f`: it is below NOFILE and in use.
pub record IsOpen (fd : ℕ) (ofile : List (Option ℕ)) (f : ℕ) : Type 0 where
  pub small : fd < 16
  pub stands : get_elem? ofile fd ≡ some (some f)

argfd-IsOpen : (fd f : ℕ) (ofile : List (Option ℕ)) → argfd fd ofile ≡ some f → IsOpen fd ofile f
unfolding argfd
argfd-IsOpen fd f ofile h = elim (Bool-cases (ltb fd descriptor_count)) [
  | inl small ↦ elim (Option-cases (get_elem? ofile fd)) [
    | inl lost ↦ absurd (cc (rw (argfd, small, lost) at h))
    | inr (o, e) ↦ record {
      small = ground (arith, small);
      stands = e ∙ ap some (rw (argfd, small, e) at h);
    }
  ]
  | inr large ↦ absurd (cc (rw (argfd, large) at h))
]

argfd-not_open :
    (fd f : ℕ) (ofile : List (Option ℕ)) → argfd fd ofile ≡ none → IsOpen fd ofile f → ⊥
unfolding argfd
argfd-not_open fd f ofile h o =
    let small : ltb fd descriptor_count ≡ true = ground (arith, o.small) in
    cc (rw (argfd, small, o.stands) at h)

-- What `dup` comes to.
pub data Duplicated (fd : ℕ) (ofile : List (Option ℕ)) (files : List File) : After ℕ → Type 0 where
  not_open : ((f : ℕ) → ¬ IsOpen fd ofile f) → Duplicated fd ofile files (failed ofile files [])
  table_full :
      (f : ℕ)
      → IsOpen fd ofile f
      → ((k : ℕ) → get_elem? ofile k ≢ some none)
      → Duplicated fd ofile files (failed ofile files [])
  duplicated :
      (f new : ℕ) (g : File)
      → IsOpen fd ofile f
      → IsLowest ofile new
      → get_elem? files f ≡ some g
      → Duplicated fd ofile files
          (succeeded new (set ofile new (some f)) (set files f (record g { ref = g.ref + 1 })) [])

-- With the reference counts right and room for one more reference, `sys_dup` returns. It fails and leaves everything as it is if the
-- descriptor is not open or all descriptors are in use; otherwise the lowest descriptor that is not
-- in use stands for the same file, which is counted once more. The reference counts are right afterwards.
pub sys_dup-Duplicated :
    (fd : ℕ) (ofile : List (Option ℕ)) (others : List ℕ) (files : List File)
    → IsCounted (shared ofile others files)
    → length (held ofile ++ others) + 1 < 2 ^ 31
    → (r : After ℕ) × (sys_dup fd ofile files ≡ ok r)
      × Duplicated fd ofile files r
      × IsCounted (shared r.ofile others r.files)
unfolding sys_dup fdalloc
sys_dup-Duplicated fd ofile others files w few = elim (Option-cases (argfd fd ofile)) [
  | inl lost ↦ (
    failed ofile files [],
    rw (sys_dup, lost) refl,
    not_open (λ f. argfd-not_open fd f ofile lost),
    w,
  )
  | inr (f, stands) ↦ elim (Option-cases (free_slot ofile)) [
    | inl full ↦ (
      failed ofile files [],
      rw (sys_dup, stands, fdalloc, full) refl,
      table_full f (argfd-IsOpen fd f ofile stands) (λ k. free_slot-full ofile k full),
      w,
    )
    | inr (new, free) ↦
        let is_open = argfd-IsOpen fd f ofile stands in
        let lowest = free_slot-IsLowest ofile new free in
        let refers = get-occurs ofile others fd f is_open.stands in
        let (g, at_f, does) = filedup-held (shared ofile others files) f w refers in
        let fs = set files f (record g { ref = g.ref + 1 }) in
        (
          succeeded new (set ofile new (some f)) fs [],
          rw (sys_dup, stands, fdalloc, free, does) refl,
          duplicated f new g is_open lowest at_f,
          placed-IsCounted ofile others new f fs lowest.unused
              (duplicated-IsCounted (shared ofile others files) f fs w refers few does),
        )
  ]
]

-- What closing the last reference to `f` goes on with: a pipe's end is closed, and the inode of a file or
-- a device is given back.
pub data LetGo (f : File) : Closing → Type 0 where
  closes_pipe : f.kind ≡ fd_pipe → LetGo f (close_pipe f.pipe f.writable)
  drops_file : f.kind ≡ fd_inode → LetGo f (drop_inode f.ip)
  drops_device : f.kind ≡ fd_device → LetGo f (drop_inode f.ip)
  nothing : f.kind ≡ fd_none → LetGo f done

last_close-LetGo : (f : File) → LetGo f (last_close f)
unfolding last_close
last_close-LetGo f = by_kind f.kind refl
  where
    by_kind : (k : FileKind) → f.kind ≡ k → LetGo f (last_close f)
    by_kind fd_none e = rw (last_close, e) (nothing refl)
    by_kind fd_pipe e = rw (last_close, e) (closes_pipe refl)
    by_kind fd_inode e = rw (last_close, e) (drops_file refl)
    by_kind fd_device e = rw (last_close, e) (drops_device refl)

-- What `close` comes to: the descriptor is not open, or it is given up, and the pipe or the inode is
-- let go of exactly if no other reference is left.
pub data ClosedBy (fd : ℕ) (ofile : List (Option ℕ)) (others : List ℕ) (files : List File)
    : After ℕ → Type 0 where
  not_open :
      ((f : ℕ) → ¬ IsOpen fd ofile f) → ClosedBy fd ofile others files (failed ofile files [])
  closed :
      (i : ℕ) (f : File) (fs : List File) (c : Closing)
      → IsOpen fd ofile i
      → get_elem? files i ≡ some f
      → (occurs i (held (set ofile fd none) ++ others) ≡ 0
          → LetGo f c × (fs ≡ set files i (record f { ref = 0; kind = fd_none })))
      → (0 < occurs i (held (set ofile fd none) ++ others)
          → (c ≡ done)
            × (fs ≡ set files i (record f { ref = occurs i (held (set ofile fd none) ++ others) })))
      → ClosedBy fd ofile others files (succeeded 0 (set ofile fd none) fs (c ∷ []))

-- With the reference counts right, `sys_close` returns. It fails and leaves everything as it is if
-- the descriptor is not open, that is, not below NOFILE or not in use; otherwise the descriptor is not in
-- use any more, and if no reference is left, the end of the pipe or the inode of the file or device is let
-- go of and the file is free, and else nothing is let go of. No other file changes. The counts are right afterwards.
pub sys_close-ClosedBy :
    (fd : ℕ) (ofile : List (Option ℕ)) (others : List ℕ) (files : List File)
    → IsCounted (shared ofile others files)
    → (r : After ℕ) × (sys_close fd ofile files ≡ ok r)
      × ClosedBy fd ofile others files r
      × IsCounted (shared r.ofile others r.files)
unfolding sys_close
sys_close-ClosedBy fd ofile others files w = elim (Option-cases (argfd fd ofile)) [
  | inl lost ↦ (
    failed ofile files [],
    rw (sys_close, lost) refl,
    not_open (λ f. argfd-not_open fd f ofile lost),
    w,
  )
  | inr (i, stands) ↦
      let is_open = argfd-IsOpen fd i ofile stands in
      let c = set-Closed ofile others fd i files is_open.stands w in
      let left = occurs i (held (set ofile fd none) ++ others) in
      (
        succeeded 0 (set ofile fd none) c.files (c.closing ∷ []),
        rw (sys_close, stands, c.does) refl,
        closed i c.file c.files c.closing is_open c.stood
            (λ last. (
              subst (LetGo c.file) (sym (rw (eq→== left 0 last) at c.lets_go))
                  (last_close-LetGo c.file),
              c.freed last,
            ))
            (λ more. (rw (ne→== left 0 (λ z. omega (arith, z, more))) at c.lets_go, c.still more)),
        c.counts,
      )
]
