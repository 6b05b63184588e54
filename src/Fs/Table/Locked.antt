-- ===== src/Fs/Table/Locked.antt =====
-- What locking, unlocking and freeing an inode leave as it is.
use csklub_os.Base.{
  ℕ, zero, suc, ◌+◌, ◌≡◌, refl, ◌∙◌, true, ◌&&◌, ◌||◌, not, List, Option, none, some, Outcome, ok,
  panic, ◌>>=◌, ◌==◌, Bool-cases, Option-cases, inl, inr, get_elem?, set,
}
use csklub_os.Disk.{update}
use csklub_os.Fs.Store.{Superblock, Store, block}
use csklub_os.Fs.Bitmap.{bfree}
use csklub_os.Fs.Inode.{
  Inode, get_inode, inode_block, direct_count, indirect_count, iupdate, free_direct, free_words,
  free_indirect, itrunc,
}
use csklub_os.Fs.Table.{
  Entry, is_held, acquire_inode, release_inode, load, ilock, iunlock, is_last, fewer, iput_begin,
  Putting, sleeps, frees, dropped, iput_free,
}
use csklub_os.Fs.Table.Keep.{Same}

-- The table `fs` is `es` with another content of one entry that keeps what `itable.lock` protects.
pub record Changed (es fs : List Entry) : Type 0 where
  pub index : ℕ
  pub before : Entry
  pub after : Entry
  pub found : get_elem? es index ≡ some before
  pub same : Same before after
  pub result : set es index after ≡ fs

-- What a call that does not stop the machine returns has the property.
abbrev pub Returns {ℓ κ} : {A : Type ℓ} → (A → Type κ) → Outcome A → Type κ
Returns P (ok a) = P a
Returns P panic = Unit

Returns->>= {ℓ κ ι κ'} :
    {A : Type ℓ} {B : Type κ} (P : A → Type ι) (Q : B → Type κ') (o : Outcome A) (f : A → Outcome B)
    → Returns P o
    → ((a : A) → P a → Returns Q (f a))
    → Returns Q (o >>= f)
Returns->>= P Q (ok a) f h g = g a h
Returns->>= P Q panic f h g = tt

-- The same where it does not matter what the first call returns.
Returns-after {ℓ κ κ'} :
    {A : Type ℓ} {B : Type κ} (Q : B → Type κ') (o : Outcome A) (f : A → Outcome B)
    → ((a : A) → Returns Q (f a))
    → Returns Q (o >>= f)
Returns-after Q (ok a) f g = g a
Returns-after Q panic f g = tt

-- What a call returns, if it returns a table.
abbrev pub Changes : List Entry → Outcome (List Entry) → Type 0
Changes es o = Returns (Changed es) o

set-Changed :
    (es : List Entry) (i : ℕ) (e f : Entry)
    → get_elem? es i ≡ some e
    → Same e f
    → Changed es (set es i f)
set-Changed es i e f h same = record {
  index = i;
  before = e;
  after = f;
  found = h;
  same = same;
  result = refl;
}

load-Same : (sb : Superblock) (s : Store) (e : Entry) → Returns (Same e) (load sb s e)
unfolding load get_inode
load-Same sb s e = elim (Bool-cases e.valid) [
  | inl cached ↦ rw (load, cached) (record { dev = refl; inum = refl; ref = refl })
  | inr absent ↦
      elim (Bool-cases ((get_inode (block s (inode_block sb e.node.inum)) e.node.inum).kind == 0)) [
        | inl no_type ↦ rw (load, absent, no_type) tt
        | inr typed ↦ rw (load, absent, typed) (record { dev = refl; inum = refl; ref = refl })
      ]
]

abbrev pub SomeChanged : List Entry → Option (List Entry) → Type 0
SomeChanged es none = Unit
SomeChanged es (some fs) = Changed es fs

locked-Changes :
    (sb : Superblock) (s : Store) (i : ℕ) (es : List Entry) (e c : Entry)
    → get_elem? es i ≡ some e
    → Same e c
    → Returns (SomeChanged es) (load sb s c >>= (λ f. ok (some (set es i f))))
locked-Changes sb s i es e c found same =
    Returns->>= (Same c) (SomeChanged es) (load sb s c) _ (load-Same sb s c) (λ f p.
      set-Changed es i e f found
        (record { dev = p.dev ∙ same.dev; inum = p.inum ∙ same.inum; ref = p.ref ∙ same.ref }))

pub ilock-Changes :
    (sb : Superblock) (s : Store) (me i : ℕ) (es : List Entry)
    → Returns (SomeChanged es) (ilock sb s me i es)
unfolding ilock acquire_inode
ilock-Changes sb s me i es = elim (Option-cases (get_elem? es i)) [
  | inl lost ↦ rw (ilock, lost) tt
  | inr (e, found) ↦ elim (Bool-cases (is_held e)) [
    | inr unheld ↦ rw (ilock, found, unheld) tt
    | inl in_use ↦ elim (Bool-cases e.locked) [
      | inl busy ↦ rw (ilock, found, in_use, acquire_inode, busy) tt
      | inr free ↦
          rw (ilock, found, in_use, acquire_inode, free)
            (locked-Changes sb s i es e (record e { locked = true; pid = me }) found
              (record { dev = refl; inum = refl; ref = refl }))
    ]
  ]
]

pub iunlock-Changes : (me i : ℕ) (es : List Entry) → Changes es (iunlock me i es)
unfolding iunlock
iunlock-Changes me i es = elim (Option-cases (get_elem? es i)) [
  | inl lost ↦ rw (iunlock, lost) tt
  | inr (e, found) ↦ elim (Bool-cases (not (e.locked && e.pid == me) || not (is_held e))) [
    | inl bad ↦ rw (iunlock, found, bad) tt
    | inr good ↦
        rw (iunlock, found, good)
          (set-Changed es i e (release_inode e) found
            (record { dev = refl; inum = refl; ref = refl }))
  ]
]

-- `iput` either locks the inode, to free it, or drops one reference.
abbrev pub Begun : ℕ → List Entry → Putting → Type 0
Begun i es sleeps = Unit
Begun i es (frees fs) = Changed es fs
Begun i es (dropped fs) = (e : Entry) × (get_elem? es i ≡ some e) × (set es i (fewer e) ≡ fs)

pub iput_begin-Begun : (me i : ℕ) (es : List Entry) → Returns (Begun i es) (iput_begin me i es)
unfolding iput_begin acquire_inode
iput_begin-Begun me i es = elim (Option-cases (get_elem? es i)) [
  | inl lost ↦ rw (iput_begin, lost) tt
  | inr (e, found) ↦ elim (Bool-cases (is_last e)) [
    | inr more_left ↦ rw (iput_begin, found, more_left) (e, found, refl)
    | inl last ↦ elim (Bool-cases e.locked) [
      | inl busy ↦ rw (iput_begin, found, last, acquire_inode, busy) tt
      | inr free ↦
          rw (iput_begin, found, last, acquire_inode, free)
            (set-Changed es i e (record e { locked = true; pid = me }) found
              (record { dev = refl; inum = refl; ref = refl }))
    ]
  ]
]

abbrev pub SameNumber : Inode → Inode × Store → Type 0
SameNumber ip r = r.0.inum ≡ ip.inum

free_direct-SameNumber :
    (sb : Superblock) (left i : ℕ) (ip : Inode) (s : Store)
    → Returns (SameNumber ip) (free_direct sb left i ip s)
unfolding free_direct
free_direct-SameNumber sb zero i ip s = refl
free_direct-SameNumber sb (suc left) i ip s = elim (Bool-cases (ip.addrs i == 0)) [
  | inl unused ↦ rw (free_direct, unused) (free_direct-SameNumber sb left (i + 1) ip s)
  | inr in_use ↦
      rw (free_direct, in_use)
        (Returns-after (SameNumber ip) (bfree sb (ip.addrs i) s) _
          (free_direct-SameNumber sb left (i + 1) (record ip { addrs = update ip.addrs i 0 })))
]

free_indirect-SameNumber :
    (sb : Superblock) (ip : Inode) (s : Store) → Returns (SameNumber ip) (free_indirect sb ip s)
unfolding free_indirect
free_indirect-SameNumber sb ip s = elim (Bool-cases (ip.addrs direct_count == 0)) [
  | inl unused ↦ rw (free_indirect, unused) refl
  | inr in_use ↦
      rw (free_indirect, in_use)
        (Returns-after (SameNumber ip)
          (free_words sb indirect_count 0 (block s (ip.addrs direct_count)) s) _
          (λ t. Returns-after (SameNumber ip) (bfree sb (ip.addrs direct_count) t) _ (λ u. refl)))
]

itrunc-SameNumber :
    (sb : Superblock) (ip : Inode) (s : Store) → Returns (SameNumber ip) (itrunc sb ip s)
unfolding itrunc
itrunc-SameNumber sb ip s =
    Returns->>= (SameNumber ip) (SameNumber ip) (free_direct sb direct_count 0 ip s) _
      (free_direct-SameNumber sb direct_count 0 ip s)
      (λ r1 e1.
        Returns->>= (SameNumber r1.0) (SameNumber ip) (free_indirect sb r1.0 r1.1) _
          (free_indirect-SameNumber sb r1.0 r1.1)
          (λ r2 e2.
            Returns-after (SameNumber ip) (iupdate sb (record r2.0 { size = 0 }) r2.1) _
              (λ u. e2 ∙ e1)))

pub iput_free-Changes :
    (sb : Superblock) (i : ℕ) (es : List Entry) (s : Store)
    → Returns (λ r. Changed es r.0) (iput_free sb i es s)
unfolding iput_free
iput_free-Changes sb i es s = elim (Option-cases (get_elem? es i)) [
  | inl lost ↦ rw (iput_free, lost) tt
  | inr (e, found) ↦
      rw (iput_free, found)
        (Returns->>= (SameNumber e.node) (λ r. Changed es r.0) (itrunc sb e.node s) _
          (itrunc-SameNumber sb e.node s)
          (λ r p.
            Returns-after (λ r. Changed es r.0) (iupdate sb (record r.0 { kind = 0 }) r.1) _
              (λ t. set-Changed es i e _ found (record { dev = refl; inum = p; ref = refl }))))
]
