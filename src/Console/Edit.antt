-- ===== src/Console/Edit.antt =====
-- The console's text: the lines that may be read, and the line that is still edited.
use csklub_os.Base.{
  ℕ, ◌+◌, ◌-◌, ◌%◌, ◌^◌, ◌≤◌, ◌<◌, ◌≡◌, ◌≢◌, refl, subst, ◌∙◌, ap, ap₂, arith, false, List, [], ◌∷◌,
  ◌++◌, All, ◌==◌, eq→==,
}
use csklub_os.Console.{Console, input_size, newline, take_back, store_input}
use csklub_os.Console.Window.{window, window-append, window-other}

-- From one counter value to another.
abbrev pub span : ℕ → ℕ → ℕ
span a b = (b + 2 ^ 32 - a) % 2 ^ 32

abbrev pub ready : Console → List ℕ
ready k = window k.buf k.r (span k.r k.w)

abbrev pub line : Console → List ℕ
line k = window k.buf k.w (span k.w k.e)

pub record IsConsole (k : Console) : Type 0 where
  pub small_r : k.r < 2 ^ 32
  pub small_w : k.w < 2 ^ 32
  pub small_e : k.e < 2 ^ 32
  pub fits : span k.r k.w + span k.w k.e ≤ input_size
  pub one_line : All (λ c. c ≢ newline) (line k)

-- The last character is taken off.
unfoldable pub drop_last : List ℕ → List ℕ
drop_last [] = []
drop_last (x ∷ []) = []
drop_last (x ∷ y ∷ xs) = x ∷ drop_last (y ∷ xs)

pub drop_last-append : (xs : List ℕ) (c : ℕ) → drop_last (xs ++ c ∷ []) ≡ xs
unfolding drop_last
drop_last-append [] c = refl
drop_last-append (x ∷ []) c = refl
drop_last-append (x ∷ y ∷ xs) c = ap (◌∷◌ x) (drop_last-append (y ∷ xs) c)

pub All-front : (P : ℕ → Type 0) (xs : List ℕ) (c : ℕ) → All P (xs ++ c ∷ []) → All P xs × P c
All-front P [] c h = (tt, h.0)
All-front P (x ∷ xs) c h = let (f, l) = All-front P xs c h.1 in ((h.0, f), l)

pub All-back : (P : ℕ → Type 0) (xs : List ℕ) (c : ℕ) → All P xs → P c → All P (xs ++ c ∷ [])
All-back P [] c h p = (p, tt)
All-back P (x ∷ xs) c h p = (h.0, All-back P xs c h.1 p)

module _ (k : Console) (c : ℕ) (i : IsConsole k)
    (room : span k.r k.w + span k.w k.e < input_size) where
  pub store_input-ready : ready (store_input k c) ≡ ready k
  unfolding store_input
  store_input-ready =
      window-other k.buf c (span k.r k.w) (span k.w k.e) k.r k.e i.small_r room (omega (arith, i))

  pub store_input-line : line (store_input k c) ≡ line k ++ c ∷ []
  unfolding store_input
  store_input-line =
      let k1 = store_input k c in
      let more : span k1.w k1.e ≡ span k.w k.e + 1 = omega (arith, i, room) in
      let here : k1.buf (k.e % input_size) ≡ c =
        rw (eq→== (k.e % input_size) (k.e % input_size) refl) refl in
      ap (window k1.buf k.w) more
      ∙ window-append k1.buf (span k.w k.e) 1 k.w k.e i.small_w (omega (arith, i))
      ∙ ap₂ (◌++◌)
          (window-other k.buf c (span k.w k.e) 0 k.w k.e i.small_w (omega (arith, room))
            (omega (arith, i)))
          (ap (λ u. u ∷ []) here)

-- All of the text is ready.
pub window-all :
    (buf : ℕ → ℕ) (r w e : ℕ)
    → r < 2 ^ 32
    → w < 2 ^ 32
    → e < 2 ^ 32
    → span r w + span w e ≤ input_size
    → window buf r (span r e) ≡ window buf r (span r w) ++ window buf w (span w e)
window-all buf r w e sr sw se fits =
    let both : span r e ≡ span r w + span w e = omega (arith, sr, sw, se, fits) in
    ap (window buf r) both ∙ window-append buf (span r w) (span w e) r w sr (omega (arith, sr, sw))

-- `cons.e--` where the line is not empty takes its last character off.
pub take_back-line :
    (k : Console)
    → IsConsole k
    → (k.e == k.w) ≡ false
    → line k ≡ line (take_back k) ++ k.buf (span 1 k.e % input_size) ∷ []
unfolding take_back
take_back-line k i ne =
    let less : span k.w k.e ≡ span k.w (take_back k).e + 1 = ground (arith, i, ne) in
    ap (window k.buf k.w) less
    ∙ window-append k.buf (span k.w (take_back k).e) 1 k.w (take_back k).e i.small_w
        (ground (arith, i, ne))

pub take_back-IsConsole :
    (k : Console) → IsConsole k → (k.e == k.w) ≡ false → IsConsole (take_back k)
unfolding take_back
take_back-IsConsole k i ne = record {
  small_r = i.small_r;
  small_w = i.small_w;
  small_e = omega arith;
  fits = ground (arith, i, ne);
  one_line =
      (All-front (λ c. c ≢ newline) (line (take_back k)) (k.buf (span 1 k.e % input_size))
        (subst (All (λ c. c ≢ newline)) (take_back-line k i ne) i.one_line)).0;
}
