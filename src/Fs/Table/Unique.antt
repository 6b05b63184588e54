-- ===== src/Fs/Table/Unique.antt =====
-- No inode ever has two entries in use.
use csklub_os.Base.{
  ℕ, ◌+◌, ◌^◌, ◌<◌, ◌≡◌, refl, sym, ap, subst, arith, false, List, ◌∷◌, ◌++◌, length, length-append,
  some, Outcome, ok, Option-cases, inl, inr, get_elem?, set, modify,
}
use csklub_os.Bio.Held.{occurs, occurs-length, occurs-cons, occurs-middle}
use csklub_os.Fs.Table.{Entry, is_inode, more, fewer, renewed, iget, iput_end}
use csklub_os.Fs.Table.Scan.{Got, cached, fresh, full, iget-Got}
use csklub_os.Fs.Table.Keep.{
  Table, Step, gets, duplicates, locks, unlocks, fills, drops, starts_freeing, frees_inode,
  ends_freeing, Reach, here, next, IsTable, refs, refs-get, same-Alone, Same-IsTable, set-IsTable,
  modify-set,
}
use csklub_os.Fs.Table.Locked.{
  Changed, Returns, SomeChanged, Changes, Begun, ilock-Changes, iunlock-Changes, iput_begin-Begun,
  iput_free-Changes,
}

-- One more reference to an entry in use.
more-IsTable :
    (t : Table) (i : ℕ) (e : Entry)
    → IsTable t
    → length t.holders + 1 < 2 ^ 31
    → get_elem? t.entries i ≡ some e
    → 0 < e.ref
    → IsTable (record { entries = modify more i t.entries; holders = i ∷ t.holders })
more-IsTable t i e w few h used =
    let count = refs-get t i e w h in
    let small = occurs-length i t.holders in
    subst (λ es. IsTable (record { entries = es; holders = i ∷ t.holders }))
      (sym (modify-set t.entries more i e h))
      (set-IsTable t i e (more e) (i ∷ t.holders) w h
        (same-Alone t i e (more e) w h refl refl (λ u. used))
        (λ j. ground (arith, occurs-cons j i t.holders, count, small, few)) (omega (arith, few)))

-- One fewer.
fewer-IsTable :
    (t : Table) (i : ℕ) (e : Entry) (xs ys : List ℕ)
    → IsTable t
    → t.holders ≡ xs ++ i ∷ ys
    → get_elem? t.entries i ≡ some e
    → IsTable (record { entries = set t.entries i (fewer e); holders = xs ++ ys })
fewer-IsTable t i e xs ys w split h =
    let count = refs-get t i e w h in
    let small = occurs-length i t.holders in
    let mine = occurs-middle i i t.holders xs ys split in
    let size : length (xs ++ ys) < 2 ^ 31 =
      omega (arith, w.few, ap length split, length-append xs (i ∷ ys), length-append xs ys) in
    set-IsTable t i e (fewer e) (xs ++ ys) w h
      (same-Alone t i e (fewer e) w h refl refl (λ u. ground (arith, count, mine)))
      (λ j. ground (arith, occurs-middle j i t.holders xs ys split, count, small, mine, w.few)) size

fresh-IsTable :
    (t : Table) (dev inum i : ℕ) (e : Entry)
    → IsTable t
    → length t.holders + 1 < 2 ^ 31
    → ((k : ℕ) (x : Entry) → get_elem? t.entries k ≡ some x → is_inode dev inum x ≡ false)
    → get_elem? t.entries i ≡ some e
    → e.ref ≡ 0
    → IsTable (record { entries = modify (renewed dev inum) i t.entries; holders = i ∷ t.holders })
fresh-IsTable t dev inum i e w few miss h free =
    let count = refs-get t i e w h in
    subst (λ es. IsTable (record { entries = es; holders = i ∷ t.holders }))
      (sym (modify-set t.entries (renewed dev inum) i e h))
      (set-IsTable t i e (renewed dev inum e) (i ∷ t.holders) w h
        (λ u j x p used d n. absurd (
          ground
            (arith, miss j x p, used, d, n, refs-get t j x w p, occurs-length j t.holders, w.few)))
        (λ j. ground (arith, occurs-cons j i t.holders, count, free)) (omega (arith, few)))

got-IsTable :
    (t : Table) (dev inum i : ℕ) (es : List Entry) (o : Outcome (ℕ × List Entry))
    → IsTable t
    → length t.holders + 1 < 2 ^ 31
    → Got dev inum t.entries o
    → o ≡ ok (i, es)
    → IsTable (record { entries = es; holders = i ∷ t.holders })
got-IsTable t dev inum i es _ w few (cached k e h hit) q =
    let p : ◌≡◌ {A = ℕ × List Entry} (k, modify more k t.entries) (i, es) = cc q in
    subst (λ r. IsTable (record { entries = r.1; holders = r.0 ∷ t.holders })) p
      (more-IsTable t k e w few h (ground (arith, hit)))
got-IsTable t dev inum i es _ w few (fresh k e miss h free) q =
    let p : ◌≡◌ {A = ℕ × List Entry} (k, modify (renewed dev inum) k t.entries) (i, es) = cc q in
    subst (λ r. IsTable (record { entries = r.1; holders = r.0 ∷ t.holders })) p
      (fresh-IsTable t dev inum k e w few miss h free)
got-IsTable t dev inum i es _ w few (full miss busy) q = absurd (cc q)

-- An entry that is referred to is in the table.
held-get :
    (t : Table) (i : ℕ)
    → IsTable t
    → 0 < occurs i t.holders
    → (e : Entry) × (get_elem? t.entries i ≡ some e)
held-get t i w h = elim (Option-cases (get_elem? t.entries i)) [
  | inl lost ↦
      let none_there : refs i t.entries ≡ 0 = rw (refs, lost) refl in
      absurd (omega (arith, none_there, w.counted i, h))
  | inr found ↦ found
]

Changed-IsTable :
    (t : Table) (es : List Entry)
    → IsTable t
    → Changed t.entries es
    → IsTable (record t { entries = es })
Changed-IsTable t es w c =
    subst (λ fs. IsTable (record t { entries = fs })) c.result
      (Same-IsTable t c.index c.before c.after w c.found c.same)

-- Every step keeps the table well-formed.
Step-IsTable : (t u : Table) → IsTable t → Step t u → IsTable u
unfolding iput_end
Step-IsTable t _ w (gets dev inum i es few h) =
    got-IsTable t dev inum i es (iget dev inum t.entries) w few (iget-Got dev inum t.entries) h
Step-IsTable t _ w (duplicates i held few) =
    let (e, h) = held-get t i w held in
    more-IsTable t i e w few h (omega (arith, refs-get t i e w h, held))
Step-IsTable t _ w (locks sb s me i es h) =
    Changed-IsTable t es w
      (subst (Returns (SomeChanged t.entries)) h (ilock-Changes sb s me i t.entries))
Step-IsTable t _ w (unlocks me i es h) =
    Changed-IsTable t es w (subst (Changes t.entries) h (iunlock-Changes me i t.entries))
Step-IsTable t _ w (fills i e f h same) = Same-IsTable t i e f w h same
Step-IsTable t _ w (drops me i xs ys es split h) =
    let (e, found, q) = subst (Returns (Begun i t.entries)) h (iput_begin-Begun me i t.entries) in
    subst (λ fs. IsTable (record { entries = fs; holders = xs ++ ys })) q
      (fewer-IsTable t i e xs ys w split found)
Step-IsTable t _ w (starts_freeing me i es h) =
    Changed-IsTable t es w (subst (Returns (Begun i t.entries)) h (iput_begin-Begun me i t.entries))
Step-IsTable t _ w (frees_inode sb s u i es h) =
    Changed-IsTable t es w
      (subst (Returns (λ r. Changed t.entries r.0)) h (iput_free-Changes sb i t.entries s))
Step-IsTable t _ w (ends_freeing i xs ys split) =
    let mine : occurs i t.holders ≡ 1 + occurs i (xs ++ ys) =
      ground (arith, occurs-middle i i t.holders xs ys split) in
    let (e, h) = held-get t i w (omega (arith, mine)) in
    subst (λ es. IsTable (record { entries = es; holders = xs ++ ys }))
      (sym (modify-set t.entries fewer i e h)) (fewer-IsTable t i e xs ys w split h)

-- Whatever processes do with the table of inodes, each reference count stays the number of the
-- references to the entry, and no inode has two entries in use.
pub Reach-IsTable : (t u : Table) → IsTable t → Reach t u → IsTable u
Reach-IsTable t _ w here = w
Reach-IsTable t u w (next {u = v} r s) = Step-IsTable v u (Reach-IsTable t v w r) s
