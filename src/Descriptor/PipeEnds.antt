-- ===== src/Descriptor/PipeEnds.antt =====
-- `pipealloc` and the reference counts.
use csklub_os.Base.{
  ℕ, ◌+◌, ◌^◌, ◌<◌, ◌≡◌, ◌≢◌, refl, sym, ◌∙◌, subst, arith, true, false, List, [], ◌∷◌, length,
  Option, none, some, ok, get_elem?, get-set, get-set_ne, inl, inr, Option-cases,
}
use csklub_os.Bio.Held.{occurs, occurs-cons}
use csklub_os.FileTable.{File, change, find_free, filealloc, Closing}
use csklub_os.FileTable.Counted.{FileTable, IsCounted, find_free-get, refs-get, set-IsCounted}
use csklub_os.FileTable.Close.{held-get, allocated-IsCounted, fileclose-Closed}
use csklub_os.Descriptor.{pipe_end, pipealloc}

-- A file of the table with the references to it.
abbrev pub table : List ℕ → List File → FileTable
table hs fs = record { files = fs; holders = hs }

-- A new file has no other reference.
filealloc-fresh :
    (t : FileTable) (i : ℕ) (fs : List File)
    → IsCounted t
    → filealloc t.files ≡ some (i, fs)
    → occurs i t.holders ≡ 0
unfolding filealloc
filealloc-fresh t i fs w h = elim (Option-cases (find_free t.files)) [
  | inl full ↦ absurd (cc (rw (filealloc, full) at h))
  | inr (j, e) ↦
      let (f, at_j, free) = find_free-get t.files j e in
      let q : j ≡ i = cc (rw (filealloc, e) at h) in
      subst (λ k. occurs k t.holders ≡ 0) q (sym (w.counted j) ∙ refs-get t.files j f at_j ∙ free)
]

-- A write that keeps the count of a file that is referred to.
change-IsCounted :
    (hs : List ℕ) (fs : List File) (i : ℕ) (g : File → File) (f : File)
    → IsCounted (table hs fs)
    → get_elem? fs i ≡ some f
    → (g f).ref ≡ f.ref
    → IsCounted (table hs (change g i fs))
change-IsCounted hs fs i g f w stood same =
    rw (change, stood)
      (set-IsCounted (table hs fs) i f (g f) hs w stood
        (λ k. ground (arith, same, sym (refs-get fs i f stood) ∙ w.counted i)) w.few)

change-get :
    (g : File → File) (i : ℕ) (fs : List File) (f : File)
    → get_elem? fs i ≡ some f
    → get_elem? (change g i fs) i ≡ some (g f)
change-get g i fs f h = rw (change, h) (get-set fs i f (g f) h)

change-get_ne :
    (g : File → File) (i j : ℕ) (fs : List File)
    → i ≢ j
    → get_elem? (change g i fs) j ≡ get_elem? fs j
change-get_ne g i j fs h = elim (Option-cases (get_elem? fs i)) [
  | inl none_there ↦ rw (change, none_there) refl
  | inr (f, e) ↦ rw (change, e) (get-set_ne fs i j (g f) h)
]

-- What `pipealloc` comes to, in a table where `hs` are the references: both ends of a new pipe, each a
-- file of its own without another reference, or nothing.
pub data Allocated (mem : Option ℕ) (hs : List ℕ)
    : Option (ℕ × ℕ) × List File × List Closing → Type 0 where
  no_pipe :
      (gs : List File) (cs : List Closing)
      → IsCounted (table hs gs)
      → Allocated mem hs (none, gs, cs)
  both_ends :
      (p rf wf : ℕ) (gs : List File) (f g : File)
      → mem ≡ some p
      → rf ≢ wf
      → occurs rf hs ≡ 0
      → occurs wf hs ≡ 0
      → get_elem? gs rf ≡ some (pipe_end p false f)
      → get_elem? gs wf ≡ some (pipe_end p true g)
      → IsCounted (table (wf ∷ rf ∷ hs) gs)
      → Allocated mem hs (some (rf, wf), gs, [])

fill-Allocated :
    (mem : Option ℕ) (hs : List ℕ) (p rf wf : ℕ) (gs : List File)
    → mem ≡ some p
    → occurs rf hs ≡ 0
    → occurs wf (rf ∷ hs) ≡ 0
    → IsCounted (table (wf ∷ rf ∷ hs) gs)
    → Allocated mem hs
        (some (rf, wf), change (pipe_end p true) wf (change (pipe_end p false) rf gs), [])
fill-Allocated mem hs p rf wf gs m fresh_r fresh_w w =
    let both = wf ∷ rf ∷ hs in
    let (f, at_r, _) =
      held-get (table both gs) rf w
        (ground (arith, occurs-cons rf wf (rf ∷ hs), occurs-cons rf rf hs)) in
    let (g, at_w, _) =
      held-get (table both gs) wf w (ground (arith, occurs-cons wf wf (rf ∷ hs))) in
    let apart : rf ≢ wf = λ e. ground (arith, fresh_w, occurs-cons wf rf hs, e) in
    let first = change (pipe_end p false) rf gs in
    let w1 = change-IsCounted both gs rf (pipe_end p false) f w at_r refl in
    let at_w1 : get_elem? first wf ≡ some g =
      change-get_ne (pipe_end p false) rf wf gs apart ∙ at_w in
    both_ends p rf wf (change (pipe_end p true) wf first) f g m apart fresh_r
      (ground (arith, fresh_w, occurs-cons wf rf hs))
      (change-get_ne (pipe_end p true) wf rf first (λ e. apart (sym e))
        ∙ change-get (pipe_end p false) rf gs f at_r)
      (change-get (pipe_end p true) wf first g at_w1)
      (change-IsCounted both first wf (pipe_end p true) g w1 at_w1 refl)

-- With the reference counts right and room for two more references, `pipealloc` returns.
pub pipealloc-Allocated :
    (mem : Option ℕ) (hs : List ℕ) (files : List File)
    → IsCounted (table hs files)
    → length hs + 2 < 2 ^ 31
    → (r : Option (ℕ × ℕ) × List File × List Closing) × (pipealloc mem files ≡ ok r)
      × Allocated mem hs r
unfolding pipealloc
pipealloc-Allocated mem hs files w few = elim (Option-cases (filealloc files)) [
  | inl full ↦ ((none, files, []), rw (pipealloc, full) refl, no_pipe files [] w)
  | inr ((rf, fs), e0) ↦
      let fresh0 = filealloc-fresh (table hs files) rf fs w e0 in
      let w0 = allocated-IsCounted (table hs files) rf fs w (omega (arith, few)) e0 in
      elim (Option-cases (filealloc fs)) [
        | inl full ↦
            let c = fileclose-Closed (table (rf ∷ hs) fs) rf [] hs w0 refl in
            (
              (none, c.files, c.closing ∷ []),
              rw (pipealloc, e0, full, c.does) refl,
              no_pipe c.files (c.closing ∷ []) c.counts,
            )
        | inr ((wf, gs), e1) ↦
            let fresh1 = filealloc-fresh (table (rf ∷ hs) fs) wf gs w0 e1 in
            let w1 = allocated-IsCounted (table (rf ∷ hs) fs) wf gs w0 (omega (arith, few)) e1 in
            elim (Option-cases mem) [
              | inl out ↦
                  let c = fileclose-Closed (table (wf ∷ rf ∷ hs) gs) rf (wf ∷ []) hs w1 refl in
                  let d = fileclose-Closed (table (wf ∷ hs) c.files) wf [] hs c.counts refl in
                  (
                    (none, d.files, c.closing ∷ d.closing ∷ []),
                    rw (pipealloc, e0, e1, out, c.does, d.does) refl,
                    no_pipe d.files (c.closing ∷ d.closing ∷ []) d.counts,
                  )
              | inr (p, m) ↦ (
                (some (rf, wf), change (pipe_end p true) wf (change (pipe_end p false) rf gs), []),
                rw (pipealloc, e0, e1, m) refl,
                fill-Allocated mem hs p rf wf gs m fresh0 fresh1 w1,
              )
            ]
      ]
]
