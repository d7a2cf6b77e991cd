-- ===== src/Grep/Examples.antt =====
-- Expressions and lines.
use cmpt.Prelude.{ℕ, ◌≡◌, ◌↔◌, refl, arith, true, false, List, [], ◌∷◌, ◌++◌}
use cmpt.Grep.{match_re, caret}
use cmpt.Grep.Language.{Matches, match_re-Matches}

-- "ab*c"
abbrev ab_star_c : List ℕ
ab_star_c = 97 ∷ 98 ∷ 42 ∷ 99 ∷ []

-- "xabbc"
abbrev xabbc : List ℕ
xabbc = 120 ∷ 97 ∷ 98 ∷ 98 ∷ 99 ∷ []

match_re-Matches_example :
    (match_re ab_star_c xabbc ≡ true)
    ↔ ((pre : List ℕ) × (rest : List ℕ) × (xabbc ≡ pre ++ rest) × Matches ab_star_c rest)
match_re-Matches_example = match_re-Matches 97 (98 ∷ 42 ∷ 99 ∷ []) xabbc (omega arith)

finds_inside : match_re ab_star_c xabbc ≡ true
unfolding match_re
finds_inside = refl

anchored : match_re (caret ∷ ab_star_c) xabbc ≡ false
unfolding match_re
anchored = refl

-- ".*c$"
to_the_end : match_re (46 ∷ 42 ∷ 99 ∷ 36 ∷ []) xabbc ≡ true
unfolding match_re
to_the_end = refl
