-- ===== src/Shell/Parsing.antt =====
-- The redirections and the arguments of a command.
use cmpt.Prelude.{
  ℕ, zero, suc, ◌+◌, ◌<◌, ◌≡◌, refl, ◌∙◌, ap, arith, All, true, false, ◌&&◌, List, [], ◌∷◌, ◌++◌,
  ◌==◌, ltb, length, length-append, lt→ltb,
}
use mathlib.Core.List.{append_assoc}
use cmpt.Shell.{
  Cmd, execcmd, redircmd, o_rdonly, o_output, maxargs, skip, greater, gettoken, next_in, Parse,
  parsed, panic, redirect, and_then, parseredirs, parse_args, add_arg, Token,
}
use cmpt.Shell.Tokens.{IsWord, Solid, word_Solid, gettoken-word, word_first, InWord-Plain}
use cmpt.Shell.Grammar.{
  Redirection, from_file, to_file, append_to, Kind, simple_kind, print_words, print_redirs,
  in_redirs, AllFiles, Follows, ended, closed, line_over, pipe_back, end_line, end_back, end_pipe,
}

pub Follows-Solid : {k : Kind} {s : List ℕ} → Follows k s → Solid s
unfolding skip
Follows-Solid ended = refl
Follows-Solid (closed s) = refl
Follows-Solid (line_over s) = refl
Follows-Solid (pipe_back s) = refl
Follows-Solid (end_line s) = refl
Follows-Solid (end_back s) = refl
Follows-Solid (end_pipe s) = refl

pub redirs-Solid :
    (rs : List Redirection) {s : List ℕ} → Follows simple_kind s → Solid (print_redirs rs s)
unfolding print_redirs skip
redirs-Solid [] f = Follows-Solid f
redirs-Solid (from_file w ∷ rs) f = refl
redirs-Solid (to_file w ∷ rs) f = refl
redirs-Solid (append_to w ∷ rs) f = refl

-- No redirection follows a command.
no_redirs :
    (n : ℕ) (c : Cmd) {s : List ℕ} → Follows simple_kind s → parseredirs (suc n) c s ≡ parsed c s
unfolding parseredirs
no_redirs n c ended = refl
no_redirs n c (closed s) = refl
no_redirs n c (end_line s) = refl
no_redirs n c (end_back s) = refl
no_redirs n c (end_pipe s) = refl

greater-word : (w s : List ℕ) → IsWord w → (greater (w ++ s)).rest ≡ w ++ s
unfolding greater
greater-word [] s v = absurd v
greater-word (c ∷ w) s v = rw (InWord-Plain c v.0).no_greater (word_Solid (c ∷ w) s v)

greater-kind : (w s : List ℕ) → IsWord w → (greater (w ++ s)).kind ≡ 62
unfolding greater
greater-kind [] s v = absurd v
greater-kind (c ∷ w) s v = rw (InWord-Plain c v.0).no_greater refl

-- parseredirs behind the tokens of a redirection
abbrev redir_step : ℕ → Cmd → ℕ → Token → Parse
redir_step n c kind file = elim (file.kind == 97) [
  | false ↦ panic
  | true ↦ parseredirs n (redirect kind file.text c) file.rest
]

file_token :
    (w s : List ℕ)
    → IsWord w
    → Solid s
    → gettoken (skip (w ++ 32 ∷ s)) ≡ record { kind = 97; text = w; rest = s }
file_token w s v e = ap gettoken (word_Solid w (32 ∷ s) v) ∙ gettoken-word w s v e

pub parseredirs-print :
    (rs : List Redirection) (n : ℕ) (c : Cmd) (s : List ℕ)
    → Follows simple_kind s
    → AllFiles rs
    → length (print_redirs rs s) < n
    → parseredirs n c (print_redirs rs s) ≡ parsed (in_redirs rs c) s
unfolding parseredirs print_redirs in_redirs greater
parseredirs-print rs zero c s f v lt = absurd (omega (arith, lt))
parseredirs-print [] (suc n) c s f v lt = no_redirs n c f
parseredirs-print (from_file w ∷ rs) (suc n) c s f (v, vs) lt =
    ap (redir_step n c 60) (file_token w (print_redirs rs s) v (redirs-Solid rs f))
    ∙ parseredirs-print rs n (redircmd c w o_rdonly 0) s f vs
        (omega (arith, lt, length-append w (32 ∷ print_redirs rs s)))
parseredirs-print (to_file w ∷ rs) (suc n) c s f (v, vs) lt =
    let behind : gettoken (greater (w ++ 32 ∷ print_redirs rs s)).rest
        ≡ record { kind = 97; text = w; rest = print_redirs rs s } =
      ap gettoken (greater-word w (32 ∷ print_redirs rs s) v)
      ∙ gettoken-word w (print_redirs rs s) v (redirs-Solid rs f) in
    ap (λ k. redir_step n c k (gettoken (greater (w ++ 32 ∷ print_redirs rs s)).rest))
      (greater-kind w (32 ∷ print_redirs rs s) v)
    ∙ ap (redir_step n c 62) behind
    ∙ parseredirs-print rs n (redircmd c w o_output 1) s f vs
        (omega (arith, lt, length-append w (32 ∷ print_redirs rs s)))
parseredirs-print (append_to w ∷ rs) (suc n) c s f (v, vs) lt =
    ap (redir_step n c 43) (file_token w (print_redirs rs s) v (redirs-Solid rs f))
    ∙ parseredirs-print rs n (redircmd c w o_output 1) s f vs
        (omega (arith, lt, length-append w (32 ∷ print_redirs rs s)))

redirs_none :
    (n : ℕ) (c : Cmd) (s : List ℕ)
    → next_in (60 ∷ 62 ∷ []) (skip s) ≡ false
    → parseredirs (suc n) c s ≡ parsed c (skip s)
unfolding parseredirs
redirs_none n c s e = rw (parseredirs, e) refl

-- A word is not the beginning of a redirection.
pub word_redirs :
    (w s : List ℕ) (n : ℕ) (c : Cmd) → IsWord w → parseredirs (suc n) c (w ++ s) ≡ parsed c (w ++ s)
word_redirs w s n c v =
    let e = word_Solid w s v in
    redirs_none n c (w ++ s) (ap (next_in (60 ∷ 62 ∷ [])) e ∙ (word_first w s v).0)
    ∙ ap (parsed c) e

-- The loop of parseexec ends.
pub args_end :
    (n argc : ℕ) (c : Cmd) {s : List ℕ}
    → Follows simple_kind s
    → parse_args (suc n) argc c s ≡ parsed c s
unfolding parse_args
args_end n argc c ended = refl
args_end n argc c (closed s) = refl
args_end n argc c (end_line s) = refl
args_end n argc c (end_back s) = refl
args_end n argc c (end_pipe s) = refl

pub words-Solid :
    (ws : List (List ℕ)) (rs : List Redirection) {s : List ℕ}
    → All IsWord ws
    → Follows simple_kind s
    → Solid (print_words ws (print_redirs rs s))
unfolding print_words
words-Solid [] rs v f = redirs-Solid rs f
words-Solid (w ∷ ws) rs (v, vs) f = word_Solid w _ v

-- parse_args behind a word
abbrev arg_step : ℕ → ℕ → Cmd → Token → Parse
arg_step n argc c tok = elim (tok.kind == 0) [
  | true ↦ parsed c tok.rest
  | false ↦ elim (tok.kind == 97 && ltb (argc + 1) maxargs) [
    | false ↦ panic
    | true ↦ and_then (parseredirs n (add_arg tok.text c) tok.rest) (parse_args n (argc + 1))
  ]
]

args_more :
    (n argc : ℕ) (c : Cmd) (s : List ℕ)
    → next_in (124 ∷ 41 ∷ 38 ∷ 59 ∷ []) (skip s) ≡ false
    → parse_args (suc n) argc c s ≡ arg_step n argc c (gettoken (skip s))
unfolding parse_args
args_more n argc c s e = rw (parse_args, e) refl

arg_next :
    (w s : List ℕ) (n argc : ℕ) (c : Cmd)
    → IsWord w
    → Solid s
    → argc + 1 < maxargs
    → parse_args (suc n) argc c (w ++ 32 ∷ s)
      ≡ and_then (parseredirs n (add_arg w c) s) (parse_args n (argc + 1))
arg_next w s n argc c v e lt =
    let q = word_Solid w (32 ∷ s) v in
    args_more n argc c (w ++ 32 ∷ s)
      (ap (next_in (124 ∷ 41 ∷ 38 ∷ 59 ∷ [])) q ∙ (word_first w (32 ∷ s) v).2)
    ∙ ap (arg_step n argc c) (file_token w s v e)
    ∙ (rw (arg_step, lt→ltb (argc + 1) maxargs lt) refl)

pub parse_args-print :
    (w : List ℕ) (ws : List (List ℕ)) (rs : List Redirection) (n argc : ℕ) (vs : List (List ℕ))
    (s : List ℕ)
    → Follows simple_kind s
    → All IsWord (w ∷ ws)
    → AllFiles rs
    → argc + length (w ∷ ws) < maxargs
    → length (print_words (w ∷ ws) (print_redirs rs s)) < n
    → parse_args n argc (execcmd vs) (print_words (w ∷ ws) (print_redirs rs s))
      ≡ parsed (in_redirs rs (execcmd (vs ++ w ∷ ws))) s
unfolding print_words add_arg
parse_args-print w ws rs zero argc vs s f a v m lt = absurd (omega (arith, lt))
parse_args-print w [] rs (suc zero) argc vs s f (a, _) v m lt =
    absurd (omega (arith, lt, length-append w (32 ∷ print_redirs rs s)))
parse_args-print w [] rs (suc (suc n)) argc vs s f (a, _) v m lt =
    arg_next w (print_redirs rs s) (suc n) argc (execcmd vs) a (redirs-Solid rs f)
      (omega (arith, m))
    ∙ ap (λ p. and_then p (parse_args (suc n) (argc + 1)))
        (parseredirs-print rs (suc n) (execcmd (vs ++ w ∷ [])) s f v
          (omega (arith, lt, length-append w (32 ∷ print_redirs rs s))))
    ∙ args_end n (argc + 1) (in_redirs rs (execcmd (vs ++ w ∷ []))) f
parse_args-print w (x ∷ ws) rs (suc zero) argc vs s f (a, b) v m lt =
    absurd (omega (arith, lt, length-append w (32 ∷ print_words (x ∷ ws) (print_redirs rs s))))
parse_args-print w (x ∷ ws) rs (suc (suc n)) argc vs s f (a, (b, bs)) v m lt =
    let behind = print_words (x ∷ ws) (print_redirs rs s) in
    let next = execcmd (vs ++ w ∷ []) in
    arg_next w behind (suc n) argc (execcmd vs) a (words-Solid (x ∷ ws) rs (b, bs) f)
      (omega (arith, m))
    ∙ ap (λ p. and_then p (parse_args (suc n) (argc + 1)))
        (word_redirs x (32 ∷ print_words ws (print_redirs rs s)) n next b)
    ∙ parse_args-print x ws rs (suc n) (argc + 1) (vs ++ w ∷ []) s f (b, bs) v (omega (arith, m))
        (omega (arith, lt, length-append w (32 ∷ behind)))
    ∙ ap (λ l. parsed (in_redirs rs (execcmd l)) s) (append_assoc vs (w ∷ []) (x ∷ ws))
