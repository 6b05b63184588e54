-- ===== src/Fs/Table/Scan.antt =====
-- What `iget` finds.
use csklub_os.Base.{
  ℕ, zero, suc, ◌+◌, ◌≡◌, ◌≢◌, ◌⊎◌, refl, ◌∙◌, ap, arith, true, false, List, [], ◌∷◌, Option, none,
  some, Outcome, ok, panic, ◌==◌, Bool-cases, inl, inr, get_elem?, modify, subst, eq→==,
}
use csklub_os.Fs.Table.{Entry, is_inode, held, missing, remember, scan, more, renewed, iget}

-- Where the loop of `iget`, at index `i`, has its free entry from: an earlier one, or the list.
abbrev pub Free : ℕ → Option ℕ → List Entry → Option ℕ → Type 0
Free i empty es none = (empty ≡ none) × ((k : ℕ) (e : Entry) → get_elem? es k ≡ some e → e.ref ≢ 0)
Free i empty es (some j) =
    (empty ≡ some j)
    ⊎ ((k : ℕ) × (e : Entry) × (j ≡ i + k) × (get_elem? es k ≡ some e) × (e.ref ≡ 0))

-- The entry of the inode.
abbrev pub Hit : ℕ → ℕ → List Entry → ℕ → Type 0
Hit dev inum es k = (e : Entry) × (get_elem? es k ≡ some e) × (is_inode dev inum e ≡ true)

abbrev pub Missed : ℕ → ℕ → List Entry → Type 0
Missed dev inum es = (k : ℕ) (e : Entry) → get_elem? es k ≡ some e → is_inode dev inum e ≡ false

abbrev pub Scanned : ℕ → ℕ → ℕ → Option ℕ → List Entry → Type 0
Scanned dev inum i empty es =
    ((k : ℕ) × (scan dev inum i empty es ≡ held (i + k)) × Hit dev inum es k)
    ⊎ ((o : Option ℕ) × (scan dev inum i empty es ≡ missing o)
        × Missed dev inum es
        × Free i empty es o)

cons-Missed :
    (dev inum : ℕ) (e : Entry) (es : List Entry)
    → is_inode dev inum e ≡ false
    → Missed dev inum es
    → Missed dev inum (e ∷ es)
cons-Missed dev inum e es h m zero f p =
    let q : e ≡ f = cc p in subst (λ g. is_inode dev inum g ≡ false) q h
cons-Missed dev inum e es h m (suc k) f p = m k f p

none-Free :
    (i : ℕ) (empty : Option ℕ) (e : Entry) (es : List Entry)
    → Free (i + 1) (remember i e empty) es none
    → Free i empty (e ∷ es) none
none-Free i none e es (h, p) = (refl, busy)
  where
    busy : (k : ℕ) (f : Entry) → get_elem? (e ∷ es) k ≡ some f → f.ref ≢ 0
    busy zero f q =
        let r : e ≡ f = cc q in
        subst (λ g. g.ref ≢ 0) r (λ z. absurd (cc (rw (eq→== e.ref 0 z) at h)))
    busy (suc k) f q = p k f q
none-Free i (some j) e es (h, p) = absurd (cc h)

some-Free :
    (i : ℕ) (empty : Option ℕ) (e : Entry) (es : List Entry) (j : ℕ)
    → Free (i + 1) (remember i e empty) es (some j)
    → Free i empty (e ∷ es) (some j)
some-Free i empty e es j (inr (k, f, q, h, z)) = inr (suc k, f, omega (arith, q), h, z)
some-Free i (some l) e es j (inl h) = inl h
some-Free i none e es j (inl h) = elim (Bool-cases (e.ref == 0)) [
  | inl free ↦ let q : i ≡ j = cc (rw free at h) in inr (0, e, omega (arith, q), refl, ground arith)
  | inr busy ↦ absurd (cc (rw busy at h))
]

pub scan-Scanned :
    (dev inum i : ℕ) (empty : Option ℕ) (es : List Entry) → Scanned dev inum i empty es
unfolding scan
scan-Scanned dev inum i empty [] = inr (empty, refl, (λ k e h. absurd (cc h)), end empty)
  where
    end : (o : Option ℕ) → Free i o [] o
    end none = (refl, λ k e h. absurd (cc h))
    end (some j) = inl refl
scan-Scanned dev inum i empty (e ∷ es) = elim (Bool-cases (is_inode dev inum e)) [
  | inl hit ↦ inl (0, rw (scan, hit) (ap held (omega arith)), (e, refl, hit))
  | inr miss ↦ elim (scan-Scanned dev inum (i + 1) (remember i e empty) es) [
    | inl (k, q, hit) ↦ inl (suc k, rw (scan, miss) (q ∙ ap held (omega arith)), hit)
    | inr (o, q, m, f) ↦ inr (o, rw (scan, miss) q, cons-Missed dev inum e es miss m, back o f)
  ]
]
  where
    back : (o : Option ℕ) → Free (i + 1) (remember i e empty) es o → Free i empty (e ∷ es) o
    back none f = none-Free i empty e es f
    back (some j) f = some-Free i empty e es j f

-- What `iget` returns: the entry `e` of the table that it takes, and that entry with one more
-- reference, or made anew.
pub data Got (dev inum : ℕ) (es : List Entry) : Outcome (ℕ × List Entry) → Type 0 where
  cached :
      (i : ℕ) (e : Entry)
      → get_elem? es i ≡ some e
      → is_inode dev inum e ≡ true
      → Got dev inum es (ok (i, modify more i es))
  fresh :
      (i : ℕ) (e : Entry)
      → Missed dev inum es
      → get_elem? es i ≡ some e
      → e.ref ≡ 0
      → Got dev inum es (ok (i, modify (renewed dev inum) i es))
  full :
      Missed dev inum es
      → ((i : ℕ) (e : Entry) → get_elem? es i ≡ some e → e.ref ≢ 0)
      → Got dev inum es panic

-- `iget` takes one more reference to the inode if an entry in use has it. Otherwise it gives the inode
-- an entry that no one refers to, with one reference and to be read from the disk, and panics
-- exactly if every entry is referred to.
pub iget-Got : (dev inum : ℕ) (es : List Entry) → Got dev inum es (iget dev inum es)
unfolding iget
iget-Got dev inum es = elim (scan-Scanned dev inum 0 none es) [
  | inl (k, q, hit) ↦
      let p : scan dev inum 0 none es ≡ held k = q ∙ ap held (omega arith) in
      rw (iget, p) (cached k hit.0 hit.1 hit.2)
  | inr (o, q, m, f) ↦ rw (iget, q) (ends o m f)
]
  where
    ends :
        (o : Option ℕ)
        → Missed dev inum es
        → Free 0 none es o
        → Got dev inum es
            (elim o [ none ↦ panic | some i ↦ ok (i, modify (renewed dev inum) i es) ])
    ends none m (h, busy) = full m busy
    ends (some j) m (inl h) = absurd (cc h)
    ends (some j) m (inr (k, e, q, h, z)) =
        let p : k ≡ j = omega (arith, q) in fresh j e m (subst (λ l. get_elem? es l ≡ some e) p h) z
