-- ===== src/Fs/Table/Keep.antt =====
-- The table of inodes under the kernel's use of it, with the holders of each entry.
use csklub_os.Base.{
  ℕ, zero, suc, ◌+◌, ◌^◌, ◌<◌, ◌≡◌, refl, sym, ◌⊎◌, ◌∙◌, ap, arith, List, [], ◌∷◌, ◌++◌, length,
  none, some, ok, ◌==◌, if◌then◌else◌, Bool-cases, inl, inr, get_elem?, set, modify,
}
use csklub_os.Bio.Held.{occurs}
use csklub_os.Fs.Store.{Superblock, Store}
use csklub_os.Fs.Table.{
  Entry, iget, idup, ilock, iunlock, iput_begin, frees, dropped, iput_free, iput_end,
}

-- `holders` has the index of an entry once for each reference to it.
pub record Table : Type 0 where
  pub entries : List Entry
  pub holders : List ℕ

-- A change that keeps what `itable.lock` protects.
pub record Same (e f : Entry) : Type 0 where
  pub dev : f.dev ≡ e.dev
  pub inum : f.node.inum ≡ e.node.inum
  pub ref : f.ref ≡ e.ref

-- What processes do with the table. Only an inode that is referred to is given back. While `iput`
-- frees an inode, the other processes go on.
pub data Step (t : Table) : Table → Type 0 where
  gets :
      (dev inum i : ℕ) (es : List Entry)
      → length t.holders + 1 < 2 ^ 31
      → iget dev inum t.entries ≡ ok (i, es)
      → Step t (record { entries = es; holders = i ∷ t.holders })
  duplicates :
      (i : ℕ)
      → 0 < occurs i t.holders
      → length t.holders + 1 < 2 ^ 31
      → Step t (record { entries = idup i t.entries; holders = i ∷ t.holders })
  locks :
      (sb : Superblock) (s : Store) (me i : ℕ) (es : List Entry)
      → ilock sb s me i t.entries ≡ ok (some es)
      → Step t (record t { entries = es })
  unlocks :
      (me i : ℕ) (es : List Entry)
      → iunlock me i t.entries ≡ ok es
      → Step t (record t { entries = es })
  -- The fields that a holder of the lock writes.
  fills :
      (i : ℕ) (e f : Entry)
      → get_elem? t.entries i ≡ some e
      → Same e f
      → Step t (record t { entries = set t.entries i f })
  drops :
      (me i : ℕ) (xs ys : List ℕ) (es : List Entry)
      → t.holders ≡ xs ++ i ∷ ys
      → iput_begin me i t.entries ≡ ok (dropped es)
      → Step t (record { entries = es; holders = xs ++ ys })
  starts_freeing :
      (me i : ℕ) (es : List Entry)
      → iput_begin me i t.entries ≡ ok (frees es)
      → Step t (record t { entries = es })
  frees_inode :
      (sb : Superblock) (s u : Store) (i : ℕ) (es : List Entry)
      → iput_free sb i t.entries s ≡ ok (es, u)
      → Step t (record t { entries = es })
  ends_freeing :
      (i : ℕ) (xs ys : List ℕ)
      → t.holders ≡ xs ++ i ∷ ys
      → Step t (record { entries = iput_end i t.entries; holders = xs ++ ys })

pub data Reach (t : Table) : Table → Type 0 where
  here : Reach t t
  next : {u v : Table} → Reach t u → Step u v → Reach t v

abbrev pub refs : ℕ → List Entry → ℕ
refs i es = elim (get_elem? es i) [ none ↦ 0 | some e ↦ e.ref ]

-- Each reference count is the number of the entry's references, and no inode has two entries in use.
pub record IsTable (t : Table) : Type 0 where
  pub counted : (i : ℕ) → refs i t.entries ≡ occurs i t.holders
  pub few : length t.holders < 2 ^ 31
  pub unique :
      (i j : ℕ) (e f : Entry)
      → get_elem? t.entries i ≡ some e
      → get_elem? t.entries j ≡ some f
      → 0 < e.ref
      → 0 < f.ref
      → e.dev ≡ f.dev
      → e.node.inum ≡ f.node.inum
      → i ≡ j

get_elem?-set :
    (es : List Entry) (i j : ℕ) (e f : Entry)
    → get_elem? es i ≡ some e
    → get_elem? (set es i f) j ≡ (if j == i then some f else get_elem? es j)
get_elem?-set [] i j e f h = absurd (cc h)
get_elem?-set (x ∷ es) zero zero e f h = refl
get_elem?-set (x ∷ es) zero (suc j) e f h = ground arith
get_elem?-set (x ∷ es) (suc i) zero e f h = ground arith
get_elem?-set (x ∷ es) (suc i) (suc j) e f h = ground (arith, get_elem?-set es i j e f h)

pub modify-set :
    (es : List Entry) (g : Entry → Entry) (i : ℕ) (e : Entry)
    → get_elem? es i ≡ some e
    → modify g i es ≡ set es i (g e)
modify-set [] g i e h = absurd (cc h)
modify-set (x ∷ es) g zero e h = let q : x ≡ e = cc h in ap (λ y. g y ∷ es) q
modify-set (x ∷ es) g (suc i) e h = ap (◌∷◌ x) (modify-set es g i e h)

set-cases :
    (es : List Entry) (i j : ℕ) (e f x : Entry)
    → get_elem? es i ≡ some e
    → get_elem? (set es i f) j ≡ some x
    → ((i ≡ j) × (f ≡ x)) ⊎ (get_elem? es j ≡ some x)
set-cases es i j e f x h p = elim (Bool-cases (j == i)) [
  | inl same ↦
      let q : some f ≡ some x = rw same at (sym (get_elem?-set es i j e f h) ∙ p) in
      inl (ground arith, cc q)
  | inr other ↦ inr (rw other at (sym (get_elem?-set es i j e f h) ∙ p))
]

-- An entry that is written may take no inode that another entry in use has.
abbrev pub Alone : List Entry → ℕ → Entry → Type 0
Alone es i f =
    0 < f.ref
    → (j : ℕ) (x : Entry) → get_elem? es j ≡ some x
    → 0 < x.ref
    → f.dev ≡ x.dev
    → f.node.inum ≡ x.node.inum
    → i ≡ j

pub refs-get :
    (t : Table) (i : ℕ) (e : Entry)
    → IsTable t
    → get_elem? t.entries i ≡ some e
    → e.ref ≡ occurs i t.holders
refs-get t i e w h = let p : refs i t.entries ≡ e.ref = rw (refs, h) refl in sym p ∙ w.counted i

-- Device and number of an entry in use are its own.
pub same-Alone :
    (t : Table) (i : ℕ) (e f : Entry)
    → IsTable t
    → get_elem? t.entries i ≡ some e
    → f.dev ≡ e.dev
    → f.node.inum ≡ e.node.inum
    → (0 < f.ref → 0 < e.ref)
    → Alone t.entries i f
same-Alone t i e f w h d n r used j x p rx dx nx =
    w.unique i j e x h p (r used) rx (sym d ∙ dx) (sym n ∙ nx)

pub set-IsTable :
    (t : Table) (i : ℕ) (e f : Entry) (hs : List ℕ)
    → IsTable t
    → get_elem? t.entries i ≡ some e
    → Alone t.entries i f
    → ((j : ℕ) → occurs j hs ≡ (if j == i then f.ref else occurs j t.holders))
    → length hs < 2 ^ 31
    → IsTable (record { entries = set t.entries i f; holders = hs })
set-IsTable t i e f hs w h alone count few = record {
  counted = λ j. ground (arith, get_elem?-set t.entries i j e f h, count j, w.counted j);
  few = few;
  unique = λ a b x y p q rx ry d n. elim (set-cases t.entries i a e f x h p) [
    | inl (ia, fx) ↦ elim (set-cases t.entries i b e f y h q) [
      | inl (ib, fy) ↦ sym ia ∙ ib
      | inr old ↦
          sym ia
          ∙ alone (omega (arith, ap (λ z. z.ref) fx, rx)) b y old ry (ap (λ z. z.dev) fx ∙ d)
              (ap (λ z. z.node.inum) fx ∙ n)
    ]
    | inr old ↦ elim (set-cases t.entries i b e f y h q) [
      | inl (ib, fy) ↦
          sym (
            alone (omega (arith, ap (λ z. z.ref) fy, ry)) a x old rx (ap (λ z. z.dev) fy ∙ sym d)
              (ap (λ z. z.node.inum) fy ∙ sym n))
          ∙ ib
      | inr older ↦ w.unique a b x y old older rx ry d n
    ]
  ];
}

-- A change that keeps device, number and references.
pub Same-IsTable :
    (t : Table) (i : ℕ) (e f : Entry)
    → IsTable t
    → get_elem? t.entries i ≡ some e
    → Same e f
    → IsTable (record t { entries = set t.entries i f })
Same-IsTable t i e f w h same =
    set-IsTable t i e f t.holders w h
      (same-Alone t i e f w h same.dev same.inum (λ u. omega (arith, u, same.ref)))
      (λ j. ground (arith, same.ref, refs-get t i e w h)) w.few
