-- ===== src/FileTable.antt =====
-- operating_system_engineering/labs/kernel/file.c: the table of open files, with the reference counts.
-- A pointer to a file is its index in `ftable.file`, and a pointer to a pipe or an inode is a
-- number. `ftable.lock` makes a call one step; what `fileclose` does after it has given up the lock
-- is its result.
pub mod Counted
pub mod Close
mod Tests
use csklub_os.Base.{
  ℕ, zero, suc, ◌+◌, ◌-◌, ◌%◌, ◌^◌, Bool, List, [], ◌∷◌, Option, none, some, Outcome, ok, panic,
  ltb, ◌==◌, if◌then◌else◌, get_elem?, set,
}

pub data FileKind : Type 0 where
  fd_none fd_pipe fd_inode fd_device : FileKind

pub record File : Type 0 where
  pub kind : FileKind
  pub ref : ℕ
  pub readable : Bool
  pub writable : Bool
  pub pipe : ℕ
  pub ip : ℕ

-- `f->ref < 1`: a 32-bit `int`, at 0 or with the sign bit set.
abbrev pub is_unused : File → Bool
is_unused f = ltb ((f.ref + 2 ^ 31) % 2 ^ 32) (2 ^ 31 + 1)

unfoldable pub find_free : List File → Option ℕ
find_free [] = none
find_free (f ∷ fs) =
    let rest = find_free fs in
    if f.ref == 0 then some 0 else elim rest [ none ↦ none | some i ↦ some (suc i) ]

-- A write of one file of the table.
abbrev pub change : (File → File) → ℕ → List File → List File
change g i fs = elim (get_elem? fs i) [ none ↦ fs | some f ↦ set fs i (g f) ]

-- `none` is the null pointer.
unfoldable pub filealloc : List File → Option (ℕ × List File)
unfolding find_free
filealloc fs = elim (find_free fs) [
  | none ↦ none
  | some i ↦ some (i, change (λ f. record f { ref = 1 }) i fs)
]

-- A pointer that is none to a file does not occur; the model stops there.
unfoldable pub filedup : ℕ → List File → Outcome (List File)
filedup i fs = elim (get_elem? fs i) [
  | none ↦ panic
  | some f ↦ if is_unused f then panic else ok (set fs i (record f { ref = (f.ref + 1) % 2 ^ 32 }))
]

-- What `fileclose` goes on with: `pipeclose`, or `iput` in a transaction.
pub data Closing : Type 0 where
  done : Closing
  close_pipe : ℕ → Bool → Closing
  drop_inode : ℕ → Closing

unfoldable pub last_close : File → Closing
last_close f = elim f.kind [
  | fd_none ↦ done
  | fd_pipe ↦ close_pipe f.pipe f.writable
  | fd_inode ↦ drop_inode f.ip
  | fd_device ↦ drop_inode f.ip
]

unfoldable pub fileclose : ℕ → List File → Outcome (Closing × List File)
unfolding last_close
fileclose i fs = elim (get_elem? fs i) [
  | none ↦ panic
  | some f ↦
      let less = (f.ref + 2 ^ 32 - 1) % 2 ^ 32 in
      if is_unused f
      then panic
      else if is_unused (record f { ref = less })
      then ok (last_close f, set fs i (record f { ref = 0; kind = fd_none }))
      else ok (done, set fs i (record f { ref = less }))
]
