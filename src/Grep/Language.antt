-- ===== src/Grep/Language.antt =====
-- The matcher against the language of an expression, described by splits of the text.
use Prim.Native.Nat.{ℕ}
use csklub_os.Base.{
  Bool, true, ◌||◌, List, [], ◌∷◌, ◌++◌, ◌==◌, if◌then◌else◌, ◌≡◌, ◌≢◌, ◌↔◌, ◌⊎◌, inl, inr, refl,
  ap, ◌∙◌, All, arith, Bool-cases, ne→==,
}
use csklub_os.Grep.{
  dot, star, dollar, caret, is_nil, matchstar, matchone, matchhere, search_text, match,
}

-- The parts of an expression: a character, a character that may be repeated, and the end of the text.
pub data Part : Type 0 where
  char many : ℕ → Part
  end_of_text : Part

unfoldable pub parse : List ℕ → List Part
parse [] = []
parse (c ∷ []) = (if c == dollar then end_of_text else char c) ∷ []
parse (c ∷ d ∷ re) =
    let rest = parse (d ∷ re) in if d == star then many c ∷ parse re else char c ∷ rest

-- What a character of an expression stands for.
abbrev pub Accepts : ℕ → ℕ → Type 0
Accepts c x = (c ≡ dot) ⊎ (c ≡ x)

-- The parts match a text from its beginning on.
abbrev pub Matches : List Part → List ℕ → Type 0
Matches [] text = Unit {0}
Matches (char c ∷ ps) text =
    (x : ℕ) × (rest : List ℕ) × (text ≡ x ∷ rest) × Accepts c x × Matches ps rest
Matches (many c ∷ ps) text =
    (xs : List ℕ) × (ys : List ℕ) × (text ≡ xs ++ ys) × All (Accepts c) xs × Matches ps ys
Matches (end_of_text ∷ ps) text = text ≡ []

Accepts-of-test : (c x : ℕ) → (x == c || c == dot) ≡ true → Accepts c x
Accepts-of-test c x h = ground arith

matchone-intro :
    (c : ℕ) (here : List ℕ → Bool) (x y : ℕ) (text rest : List ℕ)
    → x ∷ text ≡ y ∷ rest
    → Accepts c y
    → here rest ≡ true
    → matchone c here (x ∷ text) ≡ true
unfolding matchone
matchone-intro c here x y text rest e a r = ground arith

matchone_iff :
    (c : ℕ) (here : List ℕ → Bool) (ps : List Part) (text : List ℕ)
    → ((t : List ℕ) → (here t ≡ true) ↔ Matches ps t)
    → (matchone c here text ≡ true) ↔ Matches (char c ∷ ps) text
unfolding matchone
matchone_iff c here ps [] h = (λ e. cc, λ m. cc (m.2))
matchone_iff c here ps (x ∷ text) h = (
  λ e. (x, text, refl, ground arith, (h text).0 (ground arith)),
  λ m. matchone-intro c here x m.0 text m.1 m.2 m.3 ((h m.1).1 m.4),
)

matchstar-none :
    (c : ℕ) (here : List ℕ → Bool) (text : List ℕ) → here text ≡ true → matchstar c here text ≡ true
unfolding matchstar
matchstar-none c here [] h = h
matchstar-none c here (x ∷ text) h = rw h

matchstar-intro :
    (c : ℕ) (here : List ℕ → Bool) (xs ys text : List ℕ)
    → text ≡ xs ++ ys
    → All (Accepts c) xs
    → here ys ≡ true
    → matchstar c here text ≡ true
unfolding matchstar
matchstar-intro c here [] ys text e a r = matchstar-none c here text (ap here e ∙ r)
matchstar-intro c here (a ∷ as_) ys [] e h r = cc
matchstar-intro c here (a ∷ as_) ys (x ∷ text) e h r =
    let tails : text ≡ as_ ++ ys = cc in
    let heads : x ≡ a = cc in ground (arith, h.0, matchstar-intro c here as_ ys text tails h.1 r)

matchstar-elim :
    (c : ℕ) (here : List ℕ → Bool) (ps : List Part) (text : List ℕ)
    → ((t : List ℕ) → (here t ≡ true) ↔ Matches ps t)
    → matchstar c here text ≡ true
    → Matches (many c ∷ ps) text
unfolding matchstar
matchstar-elim c here ps [] h e = ([], [], refl, tt, (h []).0 e)
matchstar-elim c here ps (x ∷ text) h e = elim (Bool-cases (here (x ∷ text))) [
  | inl now ↦ ([], x ∷ text, refl, tt, (h (x ∷ text)).0 now)
  | inr later ↦
      let r = matchstar-elim c here ps text h (ground arith) in
      (x ∷ r.0, r.1, ap (◌∷◌ x) r.2, (Accepts-of-test c x (ground arith), r.3), r.4)
]

matchstar_iff :
    (c : ℕ) (here : List ℕ → Bool) (ps : List Part) (text : List ℕ)
    → ((t : List ℕ) → (here t ≡ true) ↔ Matches ps t)
    → (matchstar c here text ≡ true) ↔ Matches (many c ∷ ps) text
matchstar_iff c here ps text h = (
  matchstar-elim c here ps text h,
  λ m. matchstar-intro c here m.0 m.1 text m.2 m.3 ((h m.1).1 m.4),
)

is_nil_iff : (text : List ℕ) → (is_nil text ≡ true) ↔ (text ≡ [])
is_nil_iff [] = (λ e. refl, λ e. refl)
is_nil_iff (x ∷ text) = (λ e. cc, λ e. cc)

-- `matchhere` holds exactly if the expression matches the text from its beginning on: characters one
-- by one, `.` for any, a starred character for any number of them, and a `$` that ends the
-- expression for the end of the text.
pub matchhere_iff : (re text : List ℕ) → (matchhere re text ≡ true) ↔ Matches (parse re) text
unfolding matchhere parse
matchhere_iff [] text = (λ e. tt, λ m. refl)
matchhere_iff (c ∷ []) text = elim (Bool-cases (c == dollar)) [
  | inl end ↦ rw end (is_nil_iff text)
  | inr other ↦ rw other (matchone_iff c (matchhere []) [] text (λ t. (λ e. tt, λ m. refl)))
]
matchhere_iff (c ∷ d ∷ re) text = elim (Bool-cases (d == star)) [
  | inl starred ↦
      rw starred (matchstar_iff c (matchhere re) (parse re) text (λ t. matchhere_iff re t))
  | inr plain ↦
      rw plain
        (matchone_iff c (matchhere (d ∷ re)) (parse (d ∷ re)) text (λ t. matchhere_iff (d ∷ re) t))
]

-- The parts match somewhere in the text.
abbrev pub Occurs : List Part → List ℕ → Type 0
Occurs ps text = (xs : List ℕ) × (ys : List ℕ) × (text ≡ xs ++ ys) × Matches ps ys

search_text-elim : (re text : List ℕ) → search_text re text ≡ true → Occurs (parse re) text
unfolding search_text
search_text-elim re [] e = ([], [], refl, (matchhere_iff re []).0 e)
search_text-elim re (x ∷ text) e = elim (Bool-cases (matchhere re (x ∷ text))) [
  | inl now ↦ ([], x ∷ text, refl, (matchhere_iff re (x ∷ text)).0 now)
  | inr later ↦
      let r = search_text-elim re text (ground arith) in (x ∷ r.0, r.1, ap (◌∷◌ x) r.2, r.3)
]

search_text-here : (re text : List ℕ) → matchhere re text ≡ true → search_text re text ≡ true
unfolding search_text
search_text-here re [] h = h
search_text-here re (x ∷ text) h = rw h

search_text-intro :
    (re xs ys text : List ℕ) → text ≡ xs ++ ys → matchhere re ys ≡ true → search_text re text ≡ true
unfolding search_text
search_text-intro re [] ys text e m = search_text-here re text (ap (matchhere re) e ∙ m)
search_text-intro re (a ∷ as_) ys [] e m = cc
search_text-intro re (a ∷ as_) ys (x ∷ text) e m =
    let tails : text ≡ as_ ++ ys = cc in ground (arith, search_text-intro re as_ ys text tails m)

search_text_iff : (re text : List ℕ) → (search_text re text ≡ true) ↔ Occurs (parse re) text
search_text_iff re text = (
  search_text-elim re text,
  λ m. search_text-intro re m.0 m.1 text m.2 ((matchhere_iff re m.1).1 m.3),
)

-- `match`: an expression behind `^` has to match the text from its beginning on, any other
-- somewhere in it.
pub match_iff :
    (re text : List ℕ)
    → ((match (caret ∷ re) text ≡ true) ↔ Matches (parse re) text)
      × ((c : ℕ) → c ≢ caret → (match (c ∷ re) text ≡ true) ↔ Occurs (parse (c ∷ re)) text)
      × ((match [] text ≡ true) ↔ Occurs (parse []) text)
unfolding match
match_iff re text = (
  matchhere_iff re text,
  λ c ne. rw (ne→== c caret ne) (search_text_iff (c ∷ re) text),
  search_text_iff [] text,
)
