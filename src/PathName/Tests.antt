-- ===== src/PathName/Tests.antt =====
-- The path `/ab/` at 100, and a name's buffer at 200.
use csklub_os.Base.{ℕ, ◌+◌, ◌<◌, ◌≡◌, refl, arith, inl, some, ◌==◌, if◌then◌else◌}
use csklub_os.Memory.{Memory, IsBytes}
use csklub_os.Str.Move.{Outside}
use csklub_os.PathName.{dir_size, skipelem}
use csklub_os.PathName.Element.{IsPath, skipelem_lem}

abbrev root_path : Memory
root_path k =
    if k == 100
    then 47
    else if k == 101
    then 97
    else if k == 102
    then 98
    else if k == 103
    then 47
    else 0

root_path-IsBytes : IsBytes root_path
root_path-IsBytes k = ground arith

root_path-IsPath : IsPath root_path 100 1 2 1
root_path-IsPath = record {
  before = record { passes = λ j lt. ground (arith, lt); stops = refl };
  element = record { passes = λ j lt. ground (arith, lt); stops = refl };
  after = record { passes = λ j lt. ground (arith, lt); stops = refl };
  some_element = omega arith;
}

skipelem_lem_example :
    (k : Memory) × (skipelem 9 root_path 100 200 ≡ some (some (100 + 1 + 2 + 1), k))
    × ((j : ℕ) → j < 2 → j < dir_size → k (200 + j) ≡ root_path (100 + 1 + j))
    × (2 < dir_size → k (200 + 2) ≡ 0)
    × ((j : ℕ) → Outside j 200 dir_size → k j ≡ root_path j)
skipelem_lem_example =
    skipelem_lem 9 root_path 100 200 1 2 1 root_path-IsBytes root_path-IsPath (omega arith)
      (inl (omega arith))
