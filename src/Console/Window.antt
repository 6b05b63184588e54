-- ===== src/Console/Window.antt =====
-- A stretch of the input buffer as a list.
use csklub_os.Base.{
  ℕ, zero, suc, ◌+◌, ◌%◌, ◌^◌, ◌<◌, ◌≡◌, refl, sym, ◌∙◌, ap, arith, List, [], ◌∷◌, ◌++◌, length,
  ◌==◌, ne→==, if◌then◌else◌,
}
use csklub_os.Console.{input_size}

-- The `n` characters from the counter value `r` on.
abbrev pub window : (ℕ → ℕ) → ℕ → ℕ → List ℕ
window buf r zero = []
window buf r (suc n) = buf (r % input_size) ∷ window buf ((r + 1) % 2 ^ 32) n

pub length-window : (buf : ℕ → ℕ) (r n : ℕ) → length (window buf r n) ≡ n
length-window buf r zero = refl
length-window buf r (suc n) = ap suc (length-window buf ((r + 1) % 2 ^ 32) n)

pub window-append :
    (buf : ℕ → ℕ) (n m r q : ℕ)
    → r < 2 ^ 32
    → q ≡ (r + n) % 2 ^ 32
    → window buf r (n + m) ≡ window buf r n ++ window buf q m
window-append buf zero m r q lt e =
    let p : q ≡ r = omega (arith, e, lt) in
    let z : zero + m ≡ m = omega arith in ap (window buf r) z ∙ ap (λ u. window buf u m) (sym p)
window-append buf (suc n) m r q lt e =
    let z : suc n + m ≡ suc (n + m) = omega arith in
    ap (window buf r) z
    ∙ ap (◌∷◌ (buf (r % input_size)))
        (window-append buf n m ((r + 1) % 2 ^ 32) q (omega arith) (omega (arith, e)))

-- A write behind the stretch does not change it, if the buffer is not full.
pub window-other :
    (buf : ℕ → ℕ) (c n d r q : ℕ)
    → r < 2 ^ 32
    → n + d < input_size
    → q ≡ (r + n + d) % 2 ^ 32
    → window (λ i. if i == q % input_size then c else buf i) r n ≡ window buf r n
window-other buf c zero d r q lt small e = refl
window-other buf c (suc n) d r q lt small e =
    rw (ne→== (r % input_size) (q % input_size) (omega (arith, e, small, lt))) (
      ap (◌∷◌ (buf (r % input_size))) (
        window-other buf c n d ((r + 1) % 2 ^ 32) q (omega arith) (omega (arith, small))
          (omega (arith, e))))
