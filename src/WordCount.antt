-- ===== src/WordCount.antt =====
-- operating_system_engineering/labs/user/wc.c: the counting of `wc`. What `read` returns is an argument:
-- the pieces of the input, and no bytes at the end of it.
pub mod Words
mod Tests
use csklub_os.Base.{
  ℕ, zero, suc, ◌+◌, ◌*◌, ◌^◌, ◌%◌, ◌<◌, ◌≤◌, ◌≡◌, refl, sym, ◌∙◌, ap, arith, Bool, true, false,
  ◌||◌, not, List, [], ◌∷◌, ◌++◌, length, ◌==◌, if◌then◌else◌, Bool-cases, inl, inr,
}

-- `strchr(" \r\t\n\v", buf[i])`.
unfoldable pub is_space : ℕ → Bool
is_space ch = ch == 32 || ch == 13 || ch == 9 || ch == 10 || ch == 11

-- `l`, `w`, `c` and `inword`.
pub record Counts : Type 0 where
  pub lines : ℕ
  pub words : ℕ
  pub chars : ℕ
  pub inword : Bool

unfoldable pub none_counted : Counts
none_counted = record { lines = 0; words = 0; chars = 0; inword = false }

-- The counters are `int`s.
unfoldable pub count_char : Counts → ℕ → Counts
unfolding is_space
count_char k ch =
    let starts = not (is_space ch) in
    record {
      lines = if ch == 10 then (k.lines + 1) % 2 ^ 32 else k.lines;
      words = if is_space ch then k.words else if k.inword then k.words else (k.words + 1) % 2 ^ 32;
      chars = (k.chars + 1) % 2 ^ 32;
      inword = if is_space ch then false else true;
    }

-- `for(i=0; i<n; i++)`.
unfoldable pub count_piece : Counts → List ℕ → Counts
count_piece k [] = k
count_piece k (ch ∷ chs) = count_piece (count_char k ch) chs

-- `while((n = read(fd, buf, sizeof(buf))) > 0)`: a piece without bytes ends it.
unfoldable pub wc : Counts → List (List ℕ) → Counts
wc k [] = k
wc k ([] ∷ ps) = k
wc k ((ch ∷ chs) ∷ ps) = wc (count_piece k (ch ∷ chs)) ps
