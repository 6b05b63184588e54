-- ===== src/Grep.antt =====
-- operating_system_engineering/labs/user/grep.c: the regular expression matcher. A NUL-terminated
-- text is the list of its characters before the NUL. `matchhere` and `matchstar` call one another;
-- here `matchstar` takes the call of `matchhere` on the rest of the expression as a function.
pub mod Language
mod Tests
use Prim.Native.Nat.{ℕ}
use csklub_os.Base.{Bool, true, false, ◌&&◌, ◌||◌, List, [], ◌∷◌, ◌==◌, if◌then◌else◌}

-- The characters `. * $ ^`.
abbrev pub dot : ℕ
dot = b'.'

abbrev pub star : ℕ
star = b'*'

abbrev pub dollar : ℕ
dollar = b'$'

abbrev pub caret : ℕ
caret = b'^'

-- `do { if (matchhere(re, text)) return 1; } while (*text != '\0' && (*text++ == c || c == '.'))`
unfoldable pub matchstar : ℕ → (List ℕ → Bool) → List ℕ → Bool
matchstar c here [] = here []
matchstar c here (x ∷ text) = here (x ∷ text) || ((x == c || c == dot) && matchstar c here text)

-- The last test of `matchhere`, for an expression that begins with `c`; `rest` matches behind it.
unfoldable pub matchone : ℕ → (List ℕ → Bool) → List ℕ → Bool
matchone c rest [] = false
matchone c rest (x ∷ text) = (c == dot || c == x) && rest text

abbrev pub is_nil : List ℕ → Bool
is_nil [] = true
is_nil (x ∷ xs) = false

unfoldable pub matchhere : List ℕ → List ℕ → Bool
unfolding matchstar matchone
matchhere [] text = true
matchhere (c ∷ []) text = if c == dollar then is_nil text else matchone c (matchhere []) text
matchhere (c ∷ d ∷ re) text =
    if d == star then matchstar c (matchhere re) text else matchone c (matchhere (d ∷ re)) text

-- `do { if (matchhere(re, text)) return 1; } while (*text++ != '\0')`
unfoldable pub search_text : List ℕ → List ℕ → Bool
unfolding matchhere
search_text re [] = matchhere re []
search_text re (x ∷ text) = matchhere re (x ∷ text) || search_text re text

unfoldable pub match : List ℕ → List ℕ → Bool
unfolding search_text matchhere
match [] text = search_text [] text
match (c ∷ re) text = if c == caret then matchhere re text else search_text (c ∷ re) text
