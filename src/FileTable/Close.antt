-- ===== src/FileTable/Close.antt =====
-- The counts follow the references, and the last `fileclose` lets go of what the file stands for.
use csklub_os.Base.{
  ℕ, ◌+◌, ◌-◌, ◌%◌, ◌^◌, ◌<◌, ◌≡◌, refl, sym, ◌∙◌, ap, subst, arith, true, false, List, ◌∷◌, ◌++◌,
  length, length-append, some, ok, ◌==◌, Bool-cases, Option-cases, if◌then◌else◌, inl, inr,
  get_elem?, set, get-set_ne, ◌≢◌,
}
use csklub_os.Bio.Held.{occurs, occurs-length, occurs-cons, occurs-middle}
use csklub_os.FileTable.{
  File, fd_none, is_unused, find_free, change, filealloc, filedup, fileclose, last_close, Closing,
  done,
}
use csklub_os.FileTable.Counted.{
  FileTable, Step, allocates, fills, duplicates, closes, Reach, here, next, IsCounted, refs-get,
  find_free-get, set-IsCounted,
}

-- A file that is referred to is in the table.
pub held-get :
    (t : FileTable) (i : ℕ)
    → IsCounted t
    → 0 < occurs i t.holders
    → (f : File) × (get_elem? t.files i ≡ some f) × (f.ref ≡ occurs i t.holders)
held-get t i w h = elim (Option-cases (get_elem? t.files i)) [
  | inl lost ↦ absurd (ground (arith, w.counted i, lost, h))
  | inr (f, e) ↦ (f, e, sym (refs-get t.files i f e) ∙ w.counted i)
]

pub allocated-IsCounted :
    (t : FileTable) (i : ℕ) (fs : List File)
    → IsCounted t
    → length t.holders + 1 < 2 ^ 31
    → filealloc t.files ≡ some (i, fs)
    → IsCounted (record { files = fs; holders = i ∷ t.holders })
unfolding filealloc
allocated-IsCounted t i fs w few h = elim (Option-cases (find_free t.files)) [
  | inl full ↦ absurd (cc (rw (filealloc, full) at h))
  | inr (j, e) ↦
      let (f, at_j, free) = find_free-get t.files j e in
      let g = record f { ref = 1 } in
      let q : ◌≡◌ {A = ℕ × List File} (j, set t.files j g) (i, fs) =
        cc (rw (filealloc, e, change, at_j) at h) in
      subst (λ r. IsCounted (record { files = r.1; holders = r.0 ∷ t.holders })) q
        (set-IsCounted t j f g (j ∷ t.holders) w at_j
          (λ k. ground (
            arith,
            occurs-cons k j t.holders,
            sym (refs-get t.files j f at_j) ∙ w.counted j,
            free,
            w.counted k,
          ))
          (omega (arith, few)))
]

pub duplicated-IsCounted :
    (t : FileTable) (i : ℕ) (fs : List File)
    → IsCounted t
    → 0 < occurs i t.holders
    → length t.holders + 1 < 2 ^ 31
    → filedup i t.files ≡ ok fs
    → IsCounted (record { files = fs; holders = i ∷ t.holders })
unfolding filedup
duplicated-IsCounted t i fs w held few h =
    let (f, at_i, count) = held-get t i w held in
    let g = record f { ref = (f.ref + 1) % 2 ^ 32 } in
    let small = occurs-length i t.holders in
    let used : is_unused f ≡ false = ground (arith, count, small, few, held) in
    let q : set t.files i g ≡ fs = cc (rw (filedup, at_i, used) at h) in
    subst (λ r. IsCounted (record { files = r; holders = i ∷ t.holders })) q
      (set-IsCounted t i f g (i ∷ t.holders) w at_i
        (λ k. ground (arith, occurs-cons k i t.holders, count, small, few)) (omega (arith, few)))

-- With the counts right, a file that is referred to may be closed, and the pipe or inode is let go
-- of exactly if no other reference is left.
pub fileclose-last :
    (t : FileTable) (i : ℕ) (xs ys : List ℕ)
    → IsCounted t
    → t.holders ≡ xs ++ i ∷ ys
    → (f : File) × (get_elem? t.files i ≡ some f)
      × (fileclose i t.files
          ≡ ok (
              if occurs i (xs ++ ys) == 0
              then (last_close f, set t.files i (record f { ref = 0; kind = fd_none }))
              else (done, set t.files i (record f { ref = occurs i (xs ++ ys) }))))
unfolding fileclose
fileclose-last t i xs ys w e =
    let here_once = occurs-middle i i t.holders xs ys e in
    let held : 0 < occurs i t.holders = ground (arith, here_once) in
    let (f, at_i, count) = held-get t i w held in
    let small = occurs-length i t.holders in
    let used : is_unused f ≡ false = ground (arith, count, small, w.few, held) in
    let less : (f.ref + 2 ^ 32 - 1) % 2 ^ 32 ≡ occurs i (xs ++ ys) =
      ground (arith, count, small, w.few, here_once) in
    (
      f,
      at_i,
      elim (Bool-cases (occurs i (xs ++ ys) == 0)) [
        | inl last ↦ rw (fileclose, at_i, used, less) (ground (arith, last))
        | inr more ↦
            rw (fileclose, at_i, used, less)
              (ground (arith, more, less, count, small, w.few, here_once))
      ],
    )

pub closed-IsCounted :
    (t : FileTable) (i : ℕ) (xs ys : List ℕ) (c : Closing) (fs : List File)
    → IsCounted t
    → t.holders ≡ xs ++ i ∷ ys
    → fileclose i t.files ≡ ok (c, fs)
    → IsCounted (record { files = fs; holders = xs ++ ys })
closed-IsCounted t i xs ys c fs w e h =
    let (f, at_i, does) = fileclose-last t i xs ys w e in
    let shorter : length (xs ++ ys) < 2 ^ 31 =
      omega (arith, w.few, ap length e, length-append xs (i ∷ ys), length-append xs ys) in
    elim (Bool-cases (occurs i (xs ++ ys) == 0)) [
      | inl last ↦
          let g = record f { ref = 0; kind = fd_none } in
          let q : set t.files i g ≡ fs = cc (rw last at does, h) in
          subst (λ r. IsCounted (record { files = r; holders = xs ++ ys })) q
            (set-IsCounted t i f g (xs ++ ys) w at_i
              (λ k. ground (arith, occurs-middle k i t.holders xs ys e, last)) shorter)
      | inr more ↦
          let g = record f { ref = occurs i (xs ++ ys) } in
          let q : set t.files i g ≡ fs = cc (rw more at does, h) in
          subst (λ r. IsCounted (record { files = r; holders = xs ++ ys })) q
            (set-IsCounted t i f g (xs ++ ys) w at_i
              (λ k. ground (arith, occurs-middle k i t.holders xs ys e)) shorter)
    ]

Step-IsCounted : {t u : FileTable} → IsCounted t → Step t u → IsCounted u
Step-IsCounted {t} w (allocates i fs few h) = allocated-IsCounted t i fs w few h
Step-IsCounted {t} w (fills i f g h same) =
    set-IsCounted t i f g t.holders w h
      (λ k. ground (arith, same, sym (refs-get t.files i f h) ∙ w.counted i)) w.few
Step-IsCounted {t} w (duplicates i fs held few h) = duplicated-IsCounted t i fs w held few h
Step-IsCounted {t} w (closes i xs ys c fs e h) = closed-IsCounted t i xs ys c fs w e h

-- Whatever processes do with a table where each reference count is the number of the file's
-- references, it stays so.
pub Reach-IsCounted : {t u : FileTable} → IsCounted t → Reach t u → IsCounted u
Reach-IsCounted w here = w
Reach-IsCounted w (next r st) = Step-IsCounted (Reach-IsCounted w r) st

-- A file that is referred to may be duplicated.
pub filedup-held :
    (t : FileTable) (i : ℕ)
    → IsCounted t
    → 0 < occurs i t.holders
    → (f : File) × (get_elem? t.files i ≡ some f)
      × (filedup i t.files ≡ ok (set t.files i (record f { ref = f.ref + 1 })))
unfolding filedup
filedup-held t i w held =
    let (f, at_i, count) = held-get t i w held in
    let small = occurs-length i t.holders in
    let used : is_unused f ≡ false = ground (arith, count, small, w.few, held) in
    let more : (f.ref + 1) % 2 ^ 32 ≡ f.ref + 1 = ground (arith, count, small, w.few) in
    (f, at_i, rw (filedup, at_i, used, more) refl)

-- What a call of `fileclose` by a holder comes to.
pub record Closed (t : FileTable) (i : ℕ) (hs : List ℕ) : Type 0 where
  pub file : File
  pub closing : Closing
  pub files : List File
  pub stood : get_elem? t.files i ≡ some file
  pub does : fileclose i t.files ≡ ok (closing, files)
  pub lets_go : closing ≡ (if occurs i hs == 0 then last_close file else done)
  pub others : (j : ℕ) → i ≢ j → get_elem? files j ≡ get_elem? t.files j
  pub still : 0 < occurs i hs → files ≡ set t.files i (record file { ref = occurs i hs })
  pub freed : occurs i hs ≡ 0 → files ≡ set t.files i (record file { ref = 0; kind = fd_none })
  pub counts : IsCounted (record { files = files; holders = hs })

pub fileclose-Closed :
    (t : FileTable) (i : ℕ) (xs ys : List ℕ)
    → IsCounted t
    → t.holders ≡ xs ++ i ∷ ys
    → Closed t i (xs ++ ys)
fileclose-Closed t i xs ys w e =
    let (f, at_i, does) = fileclose-last t i xs ys w e in
    let z : Closing × List File =
      if occurs i (xs ++ ys) == 0
      then (last_close f, set t.files i (record f { ref = 0; kind = fd_none }))
      else (done, set t.files i (record f { ref = occurs i (xs ++ ys) })) in
    record {
      file = f;
      closing = z.0;
      files = z.1;
      stood = at_i;
      does = does;
      lets_go = ground arith;
      still =
          λ more. let q : (occurs i (xs ++ ys) == 0) ≡ false = ground (arith, more) in rw q refl;
      freed = λ last. let q : (occurs i (xs ++ ys) == 0) ≡ true = ground (arith, last) in rw q refl;
      others = λ j apart. elim (Bool-cases (occurs i (xs ++ ys) == 0)) [
        | inl last ↦ rw last (get-set_ne t.files i j (record f { ref = 0; kind = fd_none }) apart)
        | inr more ↦ rw more (get-set_ne t.files i j (record f { ref = occurs i (xs ++ ys) }) apart)
      ];
      counts = closed-IsCounted t i xs ys z.0 z.1 w e does;
    }
