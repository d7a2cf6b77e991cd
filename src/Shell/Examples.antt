-- ===== src/Shell/Examples.antt =====
-- The shell's parser on concrete lines.
use cmpt.Prelude.{ℕ, ◌≡◌, refl, arith, List, [], ◌∷◌}
use cmpt.Shell.{execcmd, pipecmd, parsecmd, parsed, panic}
use cmpt.Shell.Grammar.{
  Tree, line_kind, simple, block, single, piped, last, sequence, to_file, print, command,
}
use cmpt.Shell.Trees.{parsecmd-print}
use cmpt.Shell.Endings.{Ends, parsecmd-Ends}

abbrev word_a : List ℕ
word_a = 97 ∷ []

abbrev word_b : List ℕ
word_b = 98 ∷ []

-- a b | ( b & ) > a ; a
abbrev example_line : Tree line_kind
example_line =
    sequence
      (piped (simple (word_a ∷ word_b ∷ []) [])
        (single (block (last (single (simple (word_b ∷ []) [])) 1) (to_file word_a ∷ []))))
      0 (last (single (simple (word_a ∷ []) [])) 0)

parsecmd-print_example : parsecmd (print example_line []) ≡ parsed (command example_line) []
parsecmd-print_example = parsecmd-print example_line (
  ((
    (omega arith, (((refl, refl), tt), (((refl, refl), tt), tt)), tt),
    ((omega arith, (((refl, refl), tt), tt), tt), (((refl, refl), tt), tt)),
  )),
  (omega arith, (((refl, refl), tt), tt), tt),
)

-- a & ; ( >
abbrev unfinished_line : List ℕ
unfinished_line = 97 ∷ 32 ∷ 38 ∷ 32 ∷ 59 ∷ 32 ∷ 40 ∷ 32 ∷ 62 ∷ []

parsecmd-Ends_example : Ends 0 (parsecmd unfinished_line)
parsecmd-Ends_example = parsecmd-Ends unfinished_line

-- a|b
no_spaces :
    parsecmd (97 ∷ 124 ∷ 98 ∷ [])
    ≡ parsed (pipecmd (execcmd (word_a ∷ [])) (execcmd (word_b ∷ []))) []
unfolding parsecmd
no_spaces = refl

-- a )
unopened : parsecmd (97 ∷ 32 ∷ 41 ∷ []) ≡ panic
unfolding parsecmd
unopened = refl
