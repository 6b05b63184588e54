-- ===== src/Grep/Tests.antt =====
-- The matcher on small texts.
use Prim.Native.Nat.{ℕ}
use Prim.Native.String.{String}
use Prim.Native.Char.{code}
use csklub_os.Base.{List, [], ◌∷◌, ◌≡◌, refl, true, false, arith}
use csklub_os.Grep.{match}
use csklub_os.Grep.Language.{Occurs, parse, match_iff}

abbrev codes : String → List ℕ
codes String.[] = []
codes (String.◌∷◌ c s) = code c ∷ codes s

match_runs :
    (match (codes "a.c*d$") (codes "xxabcccd") ≡ true)
    × (match (codes "^b*$") (codes "bbb") ≡ true)
    × (match (codes "^b*$") (codes "bba") ≡ false)
    × (match (codes "ab") (codes "ba") ≡ false)
unfolding match
match_runs = (refl, refl, refl, refl)

match_iff_example : Occurs (parse (codes "b*c")) (codes "abbc")
unfolding match
match_iff_example = ((match_iff (codes "*c") (codes "abbc")).1 b'b' (omega arith)).0 refl
