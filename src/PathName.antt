-- ===== src/PathName.antt =====
-- operating_system_engineering/labs/kernel/fs.c, `skipelem`: the next element of a path name. The
-- path and the name's buffer are in the byte memory. The pointer loops, which nothing counts, take
-- fuel.
mod Scan
pub mod Element
mod Tests
use csklub_os.Base.{
  ℕ, zero, suc, ◌+◌, ◌-◌, Bool, ◌&&◌, Option, none, some, ltb, ◌==◌, ◌!=◌, if◌then◌else◌,
}
use csklub_os.Memory.{Memory, store}
use csklub_os.Str.{memmove}

abbrev pub dir_size : ℕ
dir_size = 14

-- `/`.
abbrev pub slash : ℕ
slash = 47

-- `while(go(*path)) path++;`; `none` means that the fuel ran out.
unfoldable pub skip : (ℕ → Bool) → ℕ → Memory → ℕ → Option ℕ
skip go zero m path = none
skip go (suc fuel) m path =
    let rest = skip go fuel m (path + 1) in if go (m path) then rest else some path

abbrev pub is_slash : ℕ → Bool
is_slash c = c == slash

abbrev pub in_element : ℕ → Bool
in_element c = c != slash && c != 0

-- The element from `s` up to `path`, at most DIRSIZ bytes of it.
unfoldable pub copy_name : Memory → ℕ → ℕ → ℕ → Memory
copy_name m name s len =
    if ltb len dir_size
    then store (memmove m name s len) (name + len) 0
    else memmove m name s dir_size

-- The memory, and the rest of the path, `none` for the null pointer. The outer `none` means that the
-- fuel ran out.
unfoldable pub skipelem : ℕ → Memory → ℕ → ℕ → Option (Option ℕ × Memory)
unfolding skip copy_name
skipelem fuel m path name = elim (skip is_slash fuel m path) [
  | none ↦ none
  | some s ↦ if m s == 0 then some (none, m) else elim (skip in_element fuel m s) [
    | none ↦ none
    | some end ↦ elim (skip is_slash fuel (copy_name m name s (end - s)) end) [
      | none ↦ none
      | some next ↦ some (some next, copy_name m name s (end - s))
    ]
  ]
]
