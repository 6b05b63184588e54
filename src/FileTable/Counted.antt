-- ===== src/FileTable/Counted.antt =====
-- The table of open files with its references: the descriptors of all processes.
use csklub_os.Base.{
  ℕ, zero, suc, ◌+◌, ◌^◌, ◌<◌, ◌≡◌, refl, subst, arith, List, [], ◌∷◌, ◌++◌, length, some, none, ok,
  ◌==◌, Bool-cases, Option-cases, if◌then◌else◌, inl, inr, get_elem?, set,
}
use csklub_os.Bio.Held.{occurs}
use csklub_os.FileTable.{File, find_free, filealloc, filedup, fileclose, Closing}

pub record FileTable : Type 0 where
  pub files : List File
  pub holders : List ℕ

-- What processes do with the table. Only a file that is referred to is duplicated or closed.
pub data Step (t : FileTable) : FileTable → Type 0 where
  allocates :
      (i : ℕ) (fs : List File)
      → length t.holders + 1 < 2 ^ 31
      → filealloc t.files ≡ some (i, fs)
      → Step t (record { files = fs; holders = i ∷ t.holders })
  -- The fields that `open` and `pipealloc` fill in.
  fills :
      (i : ℕ) (f g : File)
      → get_elem? t.files i ≡ some f
      → g.ref ≡ f.ref
      → Step t (record t { files = set t.files i g })
  duplicates :
      (i : ℕ) (fs : List File)
      → 0 < occurs i t.holders
      → length t.holders + 1 < 2 ^ 31
      → filedup i t.files ≡ ok fs
      → Step t (record { files = fs; holders = i ∷ t.holders })
  closes :
      (i : ℕ) (xs ys : List ℕ) (c : Closing) (fs : List File)
      → t.holders ≡ xs ++ i ∷ ys
      → fileclose i t.files ≡ ok (c, fs)
      → Step t (record { files = fs; holders = xs ++ ys })

pub data Reach (t : FileTable) : FileTable → Type 0 where
  here : Reach t t
  next : {u v : FileTable} → Reach t u → Step u v → Reach t v

abbrev pub refs : ℕ → List File → ℕ
refs i fs = elim (get_elem? fs i) [ none ↦ 0 | some f ↦ f.ref ]

-- Each reference count is the number of the file's references.
pub record IsCounted (t : FileTable) : Type 0 where
  pub counted : (i : ℕ) → refs i t.files ≡ occurs i t.holders
  pub few : length t.holders < 2 ^ 31

refs-set :
    (fs : List File) (i j : ℕ) (f g : File)
    → get_elem? fs i ≡ some f
    → refs j (set fs i g) ≡ (if j == i then g.ref else refs j fs)
refs-set [] i j f g h = absurd (cc h)
refs-set (x ∷ fs) zero zero f g h = refl
refs-set (x ∷ fs) zero (suc j) f g h = ground arith
refs-set (x ∷ fs) (suc i) zero f g h = ground arith
refs-set (x ∷ fs) (suc i) (suc j) f g h = ground (arith, refs-set fs i j f g h)

pub refs-get : (fs : List File) (i : ℕ) (f : File) → get_elem? fs i ≡ some f → refs i fs ≡ f.ref
refs-get fs i f h = rw (refs, h) refl

pub find_free-get :
    (fs : List File) (i : ℕ)
    → find_free fs ≡ some i
    → (f : File) × (get_elem? fs i ≡ some f) × (f.ref ≡ 0)
unfolding find_free
find_free-get [] i h = absurd (cc h)
find_free-get (x ∷ fs) i h = elim (Bool-cases (x.ref == 0)) [
  | inl free ↦
      let e : 0 ≡ i = cc (rw free at h) in
      subst (λ k. (f : File) × (get_elem? (x ∷ fs) k ≡ some f) × (f.ref ≡ 0)) e
        (x, refl, ground arith)
  | inr busy ↦ elim (Option-cases (find_free fs)) [
    | inl full ↦ absurd (cc (rw (busy, full) at h))
    | inr (j, e) ↦
        let q : suc j ≡ i = cc (rw (busy, e) at h) in
        subst (λ k. (f : File) × (get_elem? (x ∷ fs) k ≡ some f) × (f.ref ≡ 0)) q
          (find_free-get fs j e)
  ]
]

-- A write of one file whose count follows the references.
pub set-IsCounted :
    (t : FileTable) (i : ℕ) (f g : File) (hs : List ℕ)
    → IsCounted t
    → get_elem? t.files i ≡ some f
    → ((j : ℕ) → occurs j hs ≡ (if j == i then g.ref else occurs j t.holders))
    → length hs < 2 ^ 31
    → IsCounted (record { files = set t.files i g; holders = hs })
set-IsCounted t i f g hs w h count few = record {
  counted = λ j. ground (arith, refs-set t.files i j f g h, count j, w.counted j);
  few = few;
}
