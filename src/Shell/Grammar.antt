-- ===== src/Shell/Grammar.antt =====
-- The command lines of the shell: their trees, their text, and the commands that they stand for.
use cmpt.Prelude.{
  ℕ, zero, suc, ◌+◌, ◌<◌, ◌≤◌, ◌≡◌, arith, All, List, [], ◌∷◌, ◌++◌, length, length-append,
}
use cmpt.Shell.{Cmd, execcmd, redircmd, pipecmd, listcmd, backcmd, o_rdonly, o_output, maxargs}
use cmpt.Shell.Tokens.{IsWord}

-- The input and output of a command: < file, > file and >> file
pub data Redirection : Type 0 where
  from_file : List ℕ → Redirection
  to_file : List ℕ → Redirection
  append_to : List ℕ → Redirection

pub data Kind : Type 0 where
  simple_kind : Kind
  pipe_kind : Kind
  line_kind : Kind

-- A simple command or a block, a pipeline, and a line: pipelines with a number of & behind each
pub data Tree : Kind → Type 0 where
  simple : List (List ℕ) → List Redirection → Tree simple_kind
  block : Tree line_kind → List Redirection → Tree simple_kind
  single : Tree simple_kind → Tree pipe_kind
  piped : Tree simple_kind → Tree pipe_kind → Tree pipe_kind
  last : Tree pipe_kind → ℕ → Tree line_kind
  sequence : Tree pipe_kind → ℕ → Tree line_kind → Tree line_kind

-- The text, in front of a rest
unfoldable pub print_words : List (List ℕ) → List ℕ → List ℕ
print_words [] s = s
print_words (w ∷ ws) s = w ++ 32 ∷ print_words ws s

unfoldable pub print_redirs : List Redirection → List ℕ → List ℕ
print_redirs [] s = s
print_redirs (from_file w ∷ rs) s = 60 ∷ (w ++ 32 ∷ print_redirs rs s)
print_redirs (to_file w ∷ rs) s = 62 ∷ (w ++ 32 ∷ print_redirs rs s)
print_redirs (append_to w ∷ rs) s = 62 ∷ 62 ∷ (w ++ 32 ∷ print_redirs rs s)

unfoldable pub print_backs : ℕ → List ℕ → List ℕ
print_backs zero s = s
print_backs (suc n) s = 38 ∷ print_backs n s

unfoldable pub print : {k : Kind} → Tree k → List ℕ → List ℕ
print (simple ws rs) s = print_words ws (print_redirs rs s)
print (block l rs) s = 40 ∷ print l (41 ∷ print_redirs rs s)
print (single e) s = print e s
print (piped e p) s = print e (124 ∷ print p s)
print (last p n) s = print p (print_backs n s)
print (sequence p n l) s = print p (print_backs n (59 ∷ print l s))

-- The command
unfoldable pub in_redirs : List Redirection → Cmd → Cmd
in_redirs [] c = c
in_redirs (from_file w ∷ rs) c = in_redirs rs (redircmd c w o_rdonly 0)
in_redirs (to_file w ∷ rs) c = in_redirs rs (redircmd c w o_output 1)
in_redirs (append_to w ∷ rs) c = in_redirs rs (redircmd c w o_output 1)

unfoldable pub in_backs : ℕ → Cmd → Cmd
in_backs zero c = c
in_backs (suc n) c = in_backs n (backcmd c)

unfoldable pub command : {k : Kind} → Tree k → Cmd
command (simple ws rs) = in_redirs rs (execcmd ws)
command (block l rs) = in_redirs rs (command l)
command (single e) = command e
command (piped e p) = pipecmd (command e) (command p)
command (last p n) = in_backs n (command p)
command (sequence p n l) = listcmd (in_backs n (command p)) (command l)

-- Arguments and files are words, and a command has fewer than MAXARGS arguments.
abbrev pub file_of : Redirection → List ℕ
file_of (from_file w) = w
file_of (to_file w) = w
file_of (append_to w) = w

abbrev pub AllFiles : List Redirection → Type 0
AllFiles rs = All (λ r. IsWord (file_of r)) rs

abbrev pub IsLegal : {k : Kind} → Tree k → Type 0
IsLegal (simple ws rs) = (length ws < maxargs) × All IsWord ws × AllFiles rs
IsLegal (block l rs) = IsLegal l × AllFiles rs
IsLegal (single e) = IsLegal e
IsLegal (piped e p) = IsLegal e × IsLegal p
IsLegal (last p n) = IsLegal p
IsLegal (sequence p n l) = IsLegal p × IsLegal l

-- What may follow a tree of a kind: the end, a ), and for smaller kinds ; & and |
pub data Follows : Kind → List ℕ → Type 0 where
  ended : {k : Kind} → Follows k []
  closed : {k : Kind} (s : List ℕ) → Follows k (41 ∷ s)
  line_over : (s : List ℕ) → Follows pipe_kind (59 ∷ s)
  pipe_back : (s : List ℕ) → Follows pipe_kind (38 ∷ s)
  end_line : (s : List ℕ) → Follows simple_kind (59 ∷ s)
  end_back : (s : List ℕ) → Follows simple_kind (38 ∷ s)
  end_pipe : (s : List ℕ) → Follows simple_kind (124 ∷ s)

length-words : (ws : List (List ℕ)) (s : List ℕ) → length s ≤ length (print_words ws s)
unfolding print_words
length-words [] s = omega arith
length-words (w ∷ ws) s = omega (arith, length-append w (32 ∷ print_words ws s), length-words ws s)

length-redirs : (rs : List Redirection) (s : List ℕ) → length s ≤ length (print_redirs rs s)
unfolding print_redirs
length-redirs [] s = omega arith
length-redirs (from_file w ∷ rs) s =
    omega (arith, length-append w (32 ∷ print_redirs rs s), length-redirs rs s)
length-redirs (to_file w ∷ rs) s =
    omega (arith, length-append w (32 ∷ print_redirs rs s), length-redirs rs s)
length-redirs (append_to w ∷ rs) s =
    omega (arith, length-append w (32 ∷ print_redirs rs s), length-redirs rs s)

pub length-backs : (n : ℕ) (s : List ℕ) → length (print_backs n s) ≡ n + length s
unfolding print_backs
length-backs zero s = omega arith
length-backs (suc n) s = omega (arith, length-backs n s)

pub length-print : {k : Kind} (t : Tree k) (s : List ℕ) → length s ≤ length (print t s)
unfolding print
length-print (simple ws rs) s =
    omega (arith, length-words ws (print_redirs rs s), length-redirs rs s)
length-print (block l rs) s =
    omega (arith, length-print l (41 ∷ print_redirs rs s), length-redirs rs s)
length-print (single e) s = length-print e s
length-print (piped e p) s = omega (arith, length-print e (124 ∷ print p s), length-print p s)
length-print (last p n) s = omega (arith, length-print p (print_backs n s), length-backs n s)
length-print (sequence p n l) s = omega (
  arith,
  length-print p (print_backs n (59 ∷ print l s)),
  length-backs n (59 ∷ print l s),
  length-print l s,
)
