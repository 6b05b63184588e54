-- ===== src/PathName/Element.antt =====
-- What `skipelem` returns and copies.
use csklub_os.Base.{
  ℕ, ◌+◌, ◌-◌, ◌≤◌, ◌<◌, ◌≡◌, ◌≢◌, ◌⊎◌, refl, ◌∙◌, ap, arith, true, none, some, eq→==, ne→==,
  lt→ltb, not_lt→ltb, dec_lt,
}
use csklub_os.Memory.{Memory, IsBytes}
use csklub_os.Str.{memmove}
use csklub_os.Str.Move.{memmove_lem, Outside, store_mod, store_other}
use csklub_os.PathName.{dir_size, slash, is_slash, in_element, copy_name, skipelem}
use csklub_os.PathName.Scan.{Run, skip_run}

-- A path: `a` slashes, an element of `n` bytes, and `b` slashes, up to `end` without its own.
pub record IsPath (m : Memory) (path a n b : ℕ) : Type 0 where
  pub before : Run is_slash m path a
  pub element : Run in_element m (path + a) n
  pub after : Run is_slash m (path + a + n) b
  pub some_element : 0 < n

copy_name-Outside :
    (m : Memory) (name s len k : ℕ)
    → IsBytes m
    → Outside k name dir_size
    → copy_name m name s len k ≡ m k
unfolding copy_name
copy_name-Outside m name s len k h o = elim (dec_lt len dir_size) [
  | yes lt ↦ rw (lt→ltb len dir_size lt) (
      store_other (memmove m name s len) (name + len) 0 k (omega arith)
      ∙ (memmove_lem m name s len h).1 k (omega arith))
  | no ge ↦ rw (not_lt→ltb len dir_size ge) ((memmove_lem m name s dir_size h).1 k o)
]

-- The name's buffer has the element's first DIRSIZ bytes.
copy_name-inside :
    (m : Memory) (name s len k : ℕ)
    → IsBytes m
    → k < len
    → k < dir_size
    → copy_name m name s len (name + k) ≡ m (s + k)
unfolding copy_name
copy_name-inside m name s len k h lt small = elim (dec_lt len dir_size) [
  | yes short ↦ rw (lt→ltb len dir_size short) (
      store_other (memmove m name s len) (name + len) 0 (name + k) (omega arith)
      ∙ (memmove_lem m name s len h).0 k lt)
  | no ge ↦ rw (not_lt→ltb len dir_size ge) ((memmove_lem m name s dir_size h).0 k small)
]

copy_name-end :
    (m : Memory) (name s len : ℕ) → len < dir_size → copy_name m name s len (name + len) ≡ 0
unfolding copy_name
copy_name-end m name s len short =
    rw (lt→ltb len dir_size short) (store_mod (memmove m name s len) (name + len) 0)

-- `skipelem` on a path with an element returns what follows the element and its slashes, and puts
-- the element into the name's buffer: its first DIRSIZ bytes, with a NUL behind them if it is
-- shorter. The buffer is apart from the path, and the fuel exceeds the path's length.
pub skipelem_lem :
    (fuel : ℕ) (m : Memory) (path name a n b : ℕ)
    → IsBytes m
    → IsPath m path a n b
    → a + n + b < fuel
    → (path + a + n + b < name) ⊎ (name + dir_size ≤ path)
    → (k : Memory) × (skipelem fuel m path name ≡ some (some (path + a + n + b), k))
      × ((j : ℕ) → j < n → j < dir_size → k (name + j) ≡ m (path + a + j))
      × (n < dir_size → k (name + n) ≡ 0)
      × ((j : ℕ) → Outside j name dir_size → k j ≡ m j)
unfolding skipelem
skipelem_lem fuel m path name a n b h p few apart = (
  k,
  rw
      (
        skipelem,
        skip_run is_slash fuel m path a (omega arith) p.before,
        ne→== (m (path + a)) 0 not_end,
        skip_run in_element fuel m (path + a) n (omega arith) p.element,
        len,
        skip_run is_slash fuel k (path + a + n) b (omega arith) after,
      )
      (ap (λ u. some (some (path + a + n + b), copy_name m name (path + a) u)) len),
  λ j lt small. copy_name-inside m name (path + a) n j h lt small,
  λ short. copy_name-end m name (path + a) n short,
  λ j o. copy_name-Outside m name (path + a) n j h o,
)
  where
    k : Memory
    k = copy_name m name (path + a) n

    len : path + a + n - (path + a) ≡ n
    len = omega arith

    first : in_element (m (path + a)) ≡ true
    first = ap (λ u. in_element (m u)) (omega arith) ∙ p.element.passes 0 p.some_element

    not_end : m (path + a) ≢ 0
    not_end e = ground (arith, first, e)

    same : (j : ℕ) → j ≤ b → k (path + a + n + j) ≡ m (path + a + n + j)
    same j le =
        copy_name-Outside m name (path + a) n (path + a + n + j) h (omega (arith, apart, le))

    after : Run is_slash k (path + a + n) b
    after = record {
      passes = λ j lt. ap is_slash (same j (omega arith)) ∙ p.after.passes j lt;
      stops = ap is_slash (same b (omega arith)) ∙ p.after.stops;
    }

-- A path of slashes alone has no element.
pub skipelem-none :
    (fuel : ℕ) (m : Memory) (path name a : ℕ)
    → ((j : ℕ) → j < a → m (path + j) ≡ slash)
    → m (path + a) ≡ 0
    → a < fuel
    → skipelem fuel m path name ≡ some (none, m)
unfolding skipelem
skipelem-none fuel m path name a slashes end few =
    rw
      (
        skipelem,
        skip_run is_slash fuel m path a few (record {
          passes = λ j lt. eq→== (m (path + j)) slash (slashes j lt);
          stops = ground (arith, end);
        }),
        eq→== (m (path + a)) 0 end,
      )
      refl
