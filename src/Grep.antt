-- ===== src/Grep.antt =====
-- xv6-public/grep.c: the matcher of regular expressions. A string is the list of its characters
-- before the NUL. matchstar gets the call of matchhere on the rest of the expression as a function.
pub mod Language
mod Examples
use cmpt.Prelude.{ℕ, Bool, true, false, not, ◌&&◌, ◌||◌, List, [], ◌∷◌, ◌==◌, if◌then◌else◌}

-- '*', '$', '.' and '^'
abbrev pub star_char : ℕ
star_char = 42

abbrev pub dollar : ℕ
dollar = 36

abbrev pub dot : ℕ
dot = 46

abbrev pub caret : ℕ
caret = 94

pub matchstar : (List ℕ → Bool) → ℕ → List ℕ → Bool
matchstar here c [] = here []
matchstar here c (t ∷ text) =
    let rest = matchstar here c text in
    if here (t ∷ text) then true else if t == c || c == dot then rest else false

is_end : List ℕ → Bool
is_end [] = true
is_end (t ∷ text) = false

-- *text != '\0' && (r == '.' || r == *text), and what follows it
match_one : ℕ → (List ℕ → Bool) → List ℕ → Bool
match_one r here [] = false
match_one r here (t ∷ text) = if r == dot || r == t then here text else false

pub matchhere : List ℕ → List ℕ → Bool
unfolding matchstar is_end match_one
matchhere [] text = true
matchhere (r ∷ []) text = if r == dollar then is_end text else match_one r (λ _. true) text
matchhere (r ∷ x ∷ re) text =
    if x == star_char
    then matchstar (matchhere re) r text
    else match_one r (matchhere (x ∷ re)) text

-- the loop of match
match_from : List ℕ → List ℕ → Bool
unfolding matchhere
match_from re [] = matchhere re []
match_from re (t ∷ text) =
    let rest = match_from re text in if matchhere re (t ∷ text) then true else rest

pub match_re : List ℕ → List ℕ → Bool
unfolding matchhere match_from
match_re [] text = match_from [] text
match_re (r ∷ re) text = if r == caret then matchhere re text else match_from (r ∷ re) text
