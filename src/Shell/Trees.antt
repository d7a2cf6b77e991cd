-- ===== src/Shell/Trees.antt =====
-- Every text of the grammar parses to its command.
use cmpt.Prelude.{
  ℕ, zero, suc, ◌<◌, ◌≤◌, ◌≡◌, refl, ◌∙◌, ap, arith, false, List, [], ◌∷◌, ◌++◌, if◌then◌else◌,
  length,
}
use cmpt.Shell.{
  Cmd, execcmd, pipecmd, listcmd, backcmd, skip, token_at, gettoken, next_in, Parse, parsed, panic,
  and_then, parseredirs, parse_args, parseblock, parseexec, parsepipe, parse_backs, parseline,
  at_end, parsecmd,
}
use cmpt.Shell.Tokens.{Solid, word_Solid, word_first}
use cmpt.Shell.Grammar.{
  Redirection, from_file, to_file, append_to, Kind, simple_kind, pipe_kind, line_kind, Tree, simple,
  block, single, piped, last, sequence, print_words, print_redirs, print_backs, print, in_redirs,
  in_backs, command, IsLegal, Follows, ended, closed, line_over, pipe_back, end_line, end_back,
  end_pipe, length-backs, length-print,
}
use cmpt.Shell.Parsing.{
  Follows-Solid, redirs-Solid, words-Solid, parseredirs-print, word_redirs, args_end,
  parse_args-print,
}

Follows-pipe : {s : List ℕ} → Follows line_kind s → Follows pipe_kind s
Follows-pipe ended = ended
Follows-pipe (closed s) = closed s

Follows-simple : {s : List ℕ} → Follows pipe_kind s → Follows simple_kind s
Follows-simple ended = ended
Follows-simple (closed s) = closed s
Follows-simple (line_over s) = end_line s
Follows-simple (pipe_back s) = end_back s

backs-Follows : (n : ℕ) {s : List ℕ} → Follows pipe_kind s → Follows pipe_kind (print_backs n s)
unfolding print_backs
backs-Follows zero f = f
backs-Follows (suc n) {s} f = pipe_back (print_backs n s)

print-Solid : {k : Kind} (t : Tree k) {s : List ℕ} → IsLegal t → Follows k s → Solid (print t s)
unfolding print skip
print-Solid (simple ws rs) (_, v, w) f = words-Solid ws rs v f
print-Solid (block l rs) v f = refl
print-Solid (single e) v f = print-Solid e v (Follows-simple f)
print-Solid (piped e p) {s} (v, w) f = print-Solid e v (end_pipe (print p s))
print-Solid (last p n) v f = print-Solid p v (backs-Follows n (Follows-pipe f))
print-Solid (sequence p n l) {s} (v, w) f =
    print-Solid p v (backs-Follows n (line_over (print l s)))

-- parseexec, where no block begins
exec_plain :
    (line : List ℕ → Parse) (n : ℕ) (s : List ℕ)
    → Solid s
    → next_in (40 ∷ []) s ≡ false
    → parseexec line n s ≡ and_then (parseredirs n (execcmd []) s) (parse_args n 0)
unfolding parseexec
exec_plain line n s e f = rw (parseexec, e, f) refl

redirs_block :
    (rs : List Redirection) {s : List ℕ}
    → Follows simple_kind s
    → next_in (40 ∷ []) (print_redirs rs s) ≡ false
unfolding print_redirs next_in
redirs_block [] ended = refl
redirs_block [] (closed s) = refl
redirs_block [] (end_line s) = refl
redirs_block [] (end_back s) = refl
redirs_block [] (end_pipe s) = refl
redirs_block (from_file w ∷ rs) f = refl
redirs_block (to_file w ∷ rs) f = refl
redirs_block (append_to w ∷ rs) f = refl

-- parseblock behind the line in it, parsepipe behind a command, and parseline behind a pipeline
abbrev block_end : ℕ → Cmd → List ℕ → Parse
block_end n cmd s =
    if next_in (41 ∷ []) (skip s) then parseredirs n cmd (gettoken (skip s)).rest else panic

abbrev pipe_end : (List ℕ → Parse) → Cmd → List ℕ → Parse
pipe_end more cmd s =
    if next_in (124 ∷ []) (skip s)
    then and_then (more (gettoken (skip s)).rest) (λ right. parsed (pipecmd cmd right))
    else parsed cmd (skip s)

abbrev line_end : (List ℕ → Parse) → Cmd → List ℕ → Parse
line_end line cmd s =
    if next_in (59 ∷ []) (skip s)
    then and_then (line (gettoken (skip s)).rest) (λ right. parsed (listcmd cmd right))
    else parsed cmd (skip s)

no_pipe :
    (more : List ℕ → Parse) (c : Cmd) {s : List ℕ}
    → Follows pipe_kind s
    → pipe_end more c s ≡ parsed c s
unfolding skip next_in
no_pipe more c ended = refl
no_pipe more c (closed s) = refl
no_pipe more c (line_over s) = refl
no_pipe more c (pipe_back s) = refl

no_line :
    (line : List ℕ → Parse) (c : Cmd) {s : List ℕ}
    → Follows line_kind s
    → line_end line c s ≡ parsed c s
unfolding skip next_in
no_line line c ended = refl
no_line line c (closed s) = refl

backs_end :
    (m : ℕ) (c : Cmd) (s : List ℕ)
    → Solid s
    → next_in (38 ∷ []) s ≡ false
    → parse_backs (suc m) c s ≡ parsed c s
unfolding parse_backs
backs_end m c s e f = rw (parse_backs, e, f) (ap (parsed c) e)

backs-Solid : (n : ℕ) (s : List ℕ) → Solid s → Solid (print_backs n s)
unfolding print_backs skip
backs-Solid zero s e = e
backs-Solid (suc n) s e = refl

parse_backs-print :
    (n m : ℕ) (c : Cmd) (s : List ℕ)
    → Solid s
    → next_in (38 ∷ []) s ≡ false
    → n < m
    → parse_backs m c (print_backs n s) ≡ parsed (in_backs n c) s
unfolding print_backs in_backs parse_backs gettoken token_at
parse_backs-print n zero c s e f lt = absurd (omega (arith, lt))
parse_backs-print zero (suc m) c s e f lt = backs_end m c s e f
parse_backs-print (suc n) (suc m) c s e f lt =
    ap (parse_backs m (backcmd c)) (backs-Solid n s e)
    ∙ parse_backs-print n m (backcmd c) s e f (omega (arith, lt))

abbrev Parses : (k : Kind) → Tree k → Type 0
Parses simple_kind t =
    (m n : ℕ) (s : List ℕ)
    → Follows simple_kind s
    → length (print t s) ≤ m
    → length (print t s) < n
    → parseexec (parseline m) n (print t s) ≡ parsed (command t) s
Parses pipe_kind t =
    (m n : ℕ) (s : List ℕ)
    → Follows pipe_kind s
    → length (print t s) ≤ m
    → length (print t s) < n
    → parsepipe (parseline m) n (print t s) ≡ parsed (command t) s
Parses line_kind t =
    (n : ℕ) (s : List ℕ)
    → Follows line_kind s
    → length (print t s) < n
    → parseline n (print t s) ≡ parsed (command t) s

simple-Parses :
    (ws : List (List ℕ)) (rs : List Redirection)
    → IsLegal (simple ws rs)
    → Parses simple_kind (simple ws rs)
unfolding print command print_words
simple-Parses ws rs v m zero s f a lt = absurd (omega (arith, lt))
simple-Parses [] rs (_, _, w) m (suc n) s f a lt =
    exec_plain (parseline m) (suc n) (print_redirs rs s) (redirs-Solid rs f) (redirs_block rs f)
    ∙ ap (λ p. and_then p (parse_args (suc n) 0))
        (parseredirs-print rs (suc n) (execcmd []) s f w lt)
    ∙ args_end n 0 (in_redirs rs (execcmd [])) f
simple-Parses (x ∷ ws) rs (r, all, w) m (suc n) s f a lt =
    let behind = 32 ∷ print_words ws (print_redirs rs s) in
    exec_plain (parseline m) (suc n) (x ++ behind) (word_Solid x behind all.0)
      (word_first x behind all.0).1
    ∙ ap (λ p. and_then p (parse_args (suc n) 0)) (word_redirs x behind n (execcmd []) all.0)
    ∙ parse_args-print x ws rs (suc n) 0 [] s f all w (omega (arith, r)) lt

block-Parses :
    (l : Tree line_kind) (rs : List Redirection)
    → Parses line_kind l
    → IsLegal (block l rs)
    → Parses simple_kind (block l rs)
unfolding print command parseexec parseblock gettoken token_at next_in skip
block-Parses l rs ih (v, w) m n s f a lt =
    ap (λ x. and_then (parseline m x) (block_end n)) (print-Solid l v (closed (print_redirs rs s)))
    ∙ ap (λ p. and_then p (block_end n))
        (ih m (41 ∷ print_redirs rs s) (closed (print_redirs rs s)) (omega (arith, a)))
    ∙ ap (parseredirs n (command l)) (redirs-Solid rs f)
    ∙ parseredirs-print rs n (command l) s f w
        (omega (arith, lt, length-print l (41 ∷ print_redirs rs s)))

single-Parses : (e : Tree simple_kind) → Parses simple_kind e → Parses pipe_kind (single e)
unfolding print command parsepipe
single-Parses e ih m zero s f a lt = absurd (omega (arith, lt))
single-Parses e ih m (suc n) s f a lt =
    ap (λ p. and_then p (pipe_end (parsepipe (parseline m) n)))
      (ih m (suc n) s (Follows-simple f) a lt)
    ∙ no_pipe (parsepipe (parseline m) n) (command e) f

piped-Parses :
    (e : Tree simple_kind) (p : Tree pipe_kind)
    → Parses simple_kind e
    → Parses pipe_kind p
    → IsLegal p
    → Parses pipe_kind (piped e p)
unfolding print command parsepipe gettoken token_at next_in skip
piped-Parses e p ih jh v m zero s f a lt = absurd (omega (arith, lt))
piped-Parses e p ih jh v m (suc n) s f a lt =
    let size = length-print e (124 ∷ print p s) in
    let more = parsepipe (parseline m) n in
    ap (λ x. and_then x (pipe_end more))
      (ih m (suc n) (124 ∷ print p s) (end_pipe (print p s)) a lt)
    ∙ ap (λ x. and_then (more x) (λ right. parsed (pipecmd (command e) right))) (print-Solid p v f)
    ∙ ap (λ x. and_then x (λ right. parsed (pipecmd (command e) right)))
        (jh m n s f (omega (arith, size, a)) (omega (arith, size, lt)))

-- A pipeline and the & behind it
pipeline_end :
    (p : Tree pipe_kind) (n m : ℕ) (s : List ℕ)
    → Parses pipe_kind p
    → Solid s
    → next_in (38 ∷ []) s ≡ false
    → Follows pipe_kind (print_backs n s)
    → length (print p (print_backs n s)) ≤ m
    → and_then (parsepipe (parseline m) (suc m) (print p (print_backs n s))) (parse_backs (suc m))
      ≡ parsed (in_backs n (command p)) s
pipeline_end p n m s ih e no_back f lt =
    ap (λ x. and_then x (parse_backs (suc m)))
      (ih m (suc m) (print_backs n s) f lt (omega (arith, lt)))
    ∙ parse_backs-print n (suc m) (command p) s e no_back
        (omega (arith, lt, length-print p (print_backs n s), length-backs n s))

no_back : {s : List ℕ} → Follows line_kind s → next_in (38 ∷ []) s ≡ false
unfolding next_in
no_back ended = refl
no_back (closed s) = refl

last-Parses : (p : Tree pipe_kind) (n : ℕ) → Parses pipe_kind p → Parses line_kind (last p n)
unfolding print command parseline
last-Parses p n ih zero s f lt = absurd (omega (arith, lt))
last-Parses p n ih (suc m) s f lt =
    ap (λ x. and_then x (line_end (parseline m)))
      (pipeline_end p n m s ih (Follows-Solid f) (no_back f) (backs-Follows n (Follows-pipe f))
        (omega (arith, lt)))
    ∙ no_line (parseline m) (in_backs n (command p)) f

sequence-Parses :
    (p : Tree pipe_kind) (n : ℕ) (l : Tree line_kind)
    → Parses pipe_kind p
    → Parses line_kind l
    → IsLegal l
    → Parses line_kind (sequence p n l)
unfolding print command parseline gettoken token_at next_in skip
sequence-Parses p n l ih jh v zero s f lt = absurd (omega (arith, lt))
sequence-Parses p n l ih jh v (suc m) s f lt =
    let rest = 59 ∷ print l s in
    let left = in_backs n (command p) in
    ap (λ x. and_then x (line_end (parseline m)))
      (pipeline_end p n m rest ih refl refl (backs-Follows n (line_over (print l s)))
        (omega (arith, lt)))
    ∙ ap (λ x. and_then (parseline m x) (λ right. parsed (listcmd left right))) (print-Solid l v f)
    ∙ ap (λ x. and_then x (λ right. parsed (listcmd left right)))
        (jh m s f (omega (arith, lt, length-print p (print_backs n rest), length-backs n rest)))

parses : (k : Kind) (t : Tree k) → IsLegal t → Parses k t
parses _ (simple ws rs) v = simple-Parses ws rs v
parses _ (block l rs) (v, w) = block-Parses l rs (parses line_kind l v) (v, w)
parses _ (single e) v = single-Parses e (parses simple_kind e v)
parses _ (piped e p) (v, w) = piped-Parses e p (parses simple_kind e v) (parses pipe_kind p w) w
parses _ (last p n) v = last-Parses p n (parses pipe_kind p v)
parses _ (sequence p n l) (v, w) =
    sequence-Parses p n l (parses pipe_kind p v) (parses line_kind l w) w

-- The text of a line whose words are words of the shell, with fewer than MAXARGS arguments in each
-- command, parses to the command that the line stands for: pipes bind tighter than & and ;, both
-- associate to the right, and a later redirection is around an earlier one. The parser does not
-- panic on it and does not run out of fuel.
pub parsecmd-print :
    (t : Tree line_kind) → IsLegal t → parsecmd (print t []) ≡ parsed (command t) []
unfolding parsecmd skip at_end
parsecmd-print t v =
    ap (λ p. and_then p (λ cmd s. at_end cmd (skip s)))
      (parses line_kind t v (suc (length (print t []))) [] ended (omega arith))
