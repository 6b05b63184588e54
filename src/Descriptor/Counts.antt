-- ===== src/Descriptor/Counts.antt =====
-- The reference counts of the open files while a process works with its descriptors.
use csklub_os.Base.{
  ℕ, ◌<◌, ◌≡◌, sym, ◌∙◌, ap, subst, arith, List, ◌∷◌, ◌++◌, length, length-append, Option, none,
  some, get_elem?, set,
}
use mathlib.Core.List.{append_assoc}
use csklub_os.Bio.Held.{occurs, occurs-cons, occurs-append, occurs-middle}
use csklub_os.FileTable.{File}
use csklub_os.FileTable.Counted.{FileTable, IsCounted}
use csklub_os.FileTable.Close.{Closed, fileclose-Closed}
use csklub_os.Descriptor.Slots.{held, get-Around}

-- The table with the descriptors of a process and the references of all others.
abbrev pub shared : List (Option ℕ) → List ℕ → List File → FileTable
shared ofile others fs = record { files = fs; holders = held ofile ++ others }

-- The order of the references does not matter.
pub IsCounted-same :
    (fs : List File) (hs gs : List ℕ)
    → IsCounted (record { files = fs; holders = hs })
    → ((k : ℕ) → occurs k gs ≡ occurs k hs)
    → length gs ≡ length hs
    → IsCounted (record { files = fs; holders = gs })
IsCounted-same fs hs gs w same size = record {
  counted = λ k. w.counted k ∙ sym (same k);
  few = omega (arith, w.few, size);
}

module _ (ofile : List (Option ℕ)) (others : List ℕ) (fd f : ℕ) where
  -- A file is put into a descriptor that is not in use.
  pub occurs-held :
      (k : ℕ)
      → get_elem? ofile fd ≡ some none
      → occurs k (held (set ofile fd (some f)) ++ others) ≡ occurs k (f ∷ (held ofile ++ others))
  unfolding held
  occurs-held k free =
      let r = get-Around ofile fd none free in
      let gs = held (set ofile fd (some f)) in
      omega (
        arith,
        occurs-append k gs others,
        occurs-cons k f (held ofile ++ others),
        occurs-append k (held ofile) others,
        ap (occurs k) r.here,
        occurs-middle k f gs r.xs r.ys (r.with (some f)),
      )

  pub length-held :
      get_elem? ofile fd ≡ some none
      → length (held (set ofile fd (some f)) ++ others) ≡ length (f ∷ (held ofile ++ others))
  unfolding held
  length-held free =
      let r = get-Around ofile fd none free in
      let gs = held (set ofile fd (some f)) in
      omega (
        arith,
        length-append gs others,
        length-append (held ofile) others,
        ap length r.here,
        ap length (r.with (some f)),
        length-append r.xs r.ys,
        length-append r.xs (f ∷ r.ys),
      )

  pub placed-IsCounted :
      (fs : List File)
      → get_elem? ofile fd ≡ some none
      → IsCounted (record { files = fs; holders = f ∷ (held ofile ++ others) })
      → IsCounted (shared (set ofile fd (some f)) others fs)
  placed-IsCounted fs free w =
      IsCounted-same fs (f ∷ (held ofile ++ others)) (held (set ofile fd (some f)) ++ others) w
        (λ k. occurs-held k free) (length-held free)

  -- A descriptor that is in use is a reference.
  pub get-occurs : get_elem? ofile fd ≡ some (some f) → 0 < occurs f (held ofile ++ others)
  unfolding held
  get-occurs used =
      let r = get-Around ofile fd (some f) used in
      let one = occurs-middle f f (held ofile) r.xs r.ys r.here in
      ground (arith, occurs-append f (held ofile) others, one)

  -- A descriptor that is in use may be given up.
  pub set-Closed :
      (fs : List File)
      → get_elem? ofile fd ≡ some (some f)
      → IsCounted (shared ofile others fs)
      → Closed (shared ofile others fs) f (held (set ofile fd none) ++ others)
  unfolding held
  set-Closed fs used w =
      let r = get-Around ofile fd (some f) used in
      let before : held ofile ++ others ≡ r.xs ++ f ∷ (r.ys ++ others) =
        ap (λ hs. hs ++ others) r.here ∙ append_assoc r.xs (f ∷ r.ys) others in
      let after : r.xs ++ (r.ys ++ others) ≡ held (set ofile fd none) ++ others =
        sym (ap (λ hs. hs ++ others) (r.with none) ∙ append_assoc r.xs r.ys others) in
      subst (Closed (shared ofile others fs) f) after
        (fileclose-Closed (shared ofile others fs) f r.xs (r.ys ++ others) w before)
