-- ===== src/WordCount/Words.antt =====
-- What the counters are after the whole input.
use csklub_os.Base.{
  ℕ, ◌+◌, ◌^◌, ◌<◌, ◌≤◌, ◌≡◌, refl, sym, ◌∙◌, ap, arith, true, false, not, List, [], ◌∷◌, ◌++◌,
  length, ◌==◌, if◌then◌else◌, Bool-cases, inl, inr,
}
use csklub_os.WordCount.{is_space, Counts, none_counted, count_char, count_piece, wc}

-- The newlines of a text.
unfoldable pub newlines : List ℕ → ℕ
newlines [] = 0
newlines (ch ∷ chs) = (if ch == 10 then 1 else 0) + newlines chs

-- The words of a text: the characters that are no spaces behind one that is. The character `before`
-- stands before the text.
unfoldable pub word_starts : ℕ → List ℕ → ℕ
word_starts before [] = 0
word_starts before (ch ∷ chs) =
    (if is_space ch then 0 else if is_space before then 1 else 0) + word_starts ch chs

-- The input: the pieces up to the first one without bytes.
abbrev pub joined : List (List ℕ) → List ℕ
joined [] = []
joined ([] ∷ ps) = []
joined ((ch ∷ chs) ∷ ps) = ch ∷ chs ++ joined ps

count_piece-append :
    (k : Counts) (xs ys : List ℕ) → count_piece k (xs ++ ys) ≡ count_piece (count_piece k xs) ys
unfolding count_piece
count_piece-append k [] ys = refl
count_piece-append k (x ∷ xs) ys = count_piece-append (count_char k x) xs ys

wc-joined : (k : Counts) (ps : List (List ℕ)) → wc k ps ≡ count_piece k (joined ps)
unfolding wc count_piece
wc-joined k [] = refl
wc-joined k ([] ∷ ps) = refl
wc-joined k ((ch ∷ chs) ∷ ps) =
    wc-joined (count_piece k (ch ∷ chs)) ps ∙ sym (count_piece-append k (ch ∷ chs) (joined ps))

-- The counters `k` after a text whose last character is `before`, and `l` after `chs` more.
record Follows (before : ℕ) (k : Counts) (chs : List ℕ) (l : Counts) : Type 0 where
  pub lines : l.lines ≡ k.lines + newlines chs
  pub words : l.words ≡ k.words + word_starts before chs
  pub chars : l.chars ≡ k.chars + length chs

record One (before : ℕ) (k : Counts) (ch : ℕ) : Type 0 where
  pub lines : (count_char k ch).lines ≡ k.lines + (if ch == 10 then 1 else 0)
  pub words :
      (count_char k ch).words
      ≡ k.words + (if is_space ch then 0 else if is_space before then 1 else 0)
  pub chars : (count_char k ch).chars ≡ k.chars + 1
  pub inword : (count_char k ch).inword ≡ not (is_space ch)

count-One :
    (before : ℕ) (k : Counts) (ch : ℕ)
    → k.inword ≡ not (is_space before)
    → k.lines + 1 < 2 ^ 32
    → k.words + 1 < 2 ^ 32
    → k.chars + 1 < 2 ^ 32
    → One before k ch
unfolding count_char
count-One before k ch state l w c = record {
  lines = ground (arith, l);
  words = elim (Bool-cases (is_space ch)) [
    | inl space ↦ rw space (omega arith)
    | inr letter ↦ elim (Bool-cases (is_space before)) [
      | inl behind ↦
          let outside : k.inword ≡ false = state ∙ ap not behind in
          rw (letter, behind, outside) (omega (arith, w))
      | inr inside ↦
          let within : k.inword ≡ true = state ∙ ap not inside in
          rw (letter, inside, within) (omega arith)
    ]
  ];
  chars = ground (arith, c);
  inword = elim (Bool-cases (is_space ch)) [
    | inl space ↦ rw space refl
    | inr letter ↦ rw letter refl
  ];
}

count_piece-Follows :
    (before : ℕ) (k : Counts) (chs : List ℕ)
    → k.inword ≡ not (is_space before)
    → k.lines ≤ k.chars
    → k.words ≤ k.chars
    → k.chars + length chs < 2 ^ 32
    → Follows before k chs (count_piece k chs)
unfolding count_piece newlines word_starts
count_piece-Follows before k [] state fewer_lines fewer_words small = record {
  lines = omega arith;
  words = omega arith;
  chars = omega arith;
}
count_piece-Follows before k (ch ∷ chs) state fewer_lines fewer_words small =
    let one =
      count-One before k ch state (omega (arith, fewer_lines, small))
        (omega (arith, fewer_words, small)) (omega (arith, small)) in
    let rest =
      count_piece-Follows ch (count_char k ch) chs one.inword
        (ground (arith, one.lines, one.chars, fewer_lines))
        (ground (arith, one.words, one.chars, fewer_words)) (omega (arith, one.chars, small)) in
    record {
      lines = omega (arith, rest.lines, one.lines);
      words = omega (arith, rest.words, one.words);
      chars = omega (arith, rest.chars, one.chars);
    }

-- However `read` cuts the input, which ends with the first piece without bytes, of fewer than 2 ^ 31 bytes, `wc` finds the numbers of its newlines,
-- of its words and of its bytes.
pub wc-counts :
    (ps : List (List ℕ))
    → length (joined ps) < 2 ^ 31
    → ((wc none_counted ps).lines ≡ newlines (joined ps))
      × ((wc none_counted ps).words ≡ word_starts 32 (joined ps))
      × ((wc none_counted ps).chars ≡ length (joined ps))
unfolding none_counted is_space
wc-counts ps small =
    let all = wc-joined none_counted ps in
    let f =
      count_piece-Follows 32 none_counted (joined ps) refl (omega arith) (omega arith)
        (omega (arith, small)) in
    (
      omega (arith, ap (λ k. k.lines) all, f.lines),
      omega (arith, ap (λ k. k.words) all, f.words),
      omega (arith, ap (λ k. k.chars) all, f.chars),
    )
