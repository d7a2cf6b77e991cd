-- ===== src/Shell.antt =====
-- The parser of xv6-public/sh.c. A pointer into the line is the list of the characters from there to
-- its end, where *s is 0; a token's text is the slice from q to eq, which nulterminate makes a
-- string. malloc gives memory, and runcmd and the reading of lines are not here.
pub mod Tokens
pub mod Grammar
pub mod Parsing
pub mod Trees
pub mod Endings
mod Examples
use cmpt.Prelude.{
  ℕ, zero, suc, ◌+◌, Bool, true, false, not, ◌&&◌, ◌||◌, List, [], ◌∷◌, ◌++◌, ◌==◌, ltb, leb,
  if◌then◌else◌, length,
}

-- The strings of sh.c: whitespace and symbols
abbrev pub whitespace : List ℕ
whitespace = 32 ∷ 9 ∷ 13 ∷ 10 ∷ 11 ∷ []

abbrev pub symbols : List ℕ
symbols = 60 ∷ 124 ∷ 62 ∷ 38 ∷ 59 ∷ 40 ∷ 41 ∷ []

-- strchr of ulib.c, as a test
abbrev pub strchr : List ℕ → ℕ → Bool
strchr [] c = false
strchr (x ∷ xs) c = x == c || strchr xs c

-- The loops over white space
pub skip : List ℕ → List ℕ
skip [] = []
skip (c ∷ s) = let rest = skip s in if strchr whitespace c then rest else c ∷ s

-- The loop over the characters of a word, and where it ends
pub word_text : List ℕ → List ℕ
word_text [] = []
word_text (c ∷ s) =
    let rest = word_text s in
    if not (strchr whitespace c) && not (strchr symbols c) then c ∷ rest else []

pub word_end : List ℕ → List ℕ
word_end [] = []
word_end (c ∷ s) =
    let rest = word_end s in
    if not (strchr whitespace c) && not (strchr symbols c) then rest else c ∷ s

-- What gettoken returns and stores
pub record Token : Type 0 where
  pub kind : ℕ
  pub text : List ℕ
  pub rest : List ℕ

-- The case '>' of gettoken, behind it
pub greater : List ℕ → Token
unfolding skip
greater [] = record { kind = 62; text = 62 ∷ []; rest = [] }
greater (c ∷ s) =
    if c == 62
    then record { kind = 43; text = 62 ∷ 62 ∷ []; rest = skip s }
    else record { kind = 62; text = 62 ∷ []; rest = skip (c ∷ s) }

-- The switch of gettoken
pub token_at : List ℕ → Token
unfolding skip word_text word_end greater
token_at [] = record { kind = 0; text = []; rest = [] }
token_at (c ∷ s) =
    if strchr (124 ∷ 40 ∷ 41 ∷ 59 ∷ 38 ∷ 60 ∷ []) c
    then record { kind = c; text = c ∷ []; rest = skip s }
    else if c == 62
    then greater s
    else record { kind = 97; text = word_text (c ∷ s); rest = skip (word_end (c ∷ s)) }

pub gettoken : List ℕ → Token
unfolding skip token_at
gettoken s = token_at (skip s)

-- The result of peek, at its new *ps
pub next_in : List ℕ → List ℕ → Bool
next_in toks [] = false
next_in toks (c ∷ s) = strchr toks c

-- struct cmd; a mode is its bits.
pub data Cmd : Type 0 where
  execcmd : List (List ℕ) → Cmd
  redircmd : Cmd → List ℕ → ℕ → ℕ → Cmd
  pipecmd : Cmd → Cmd → Cmd
  listcmd : Cmd → Cmd → Cmd
  backcmd : Cmd → Cmd

-- How a parser ends: with a command and the rest of the line, in panic, or for lack of fuel
pub data Parse : Type 0 where
  parsed : Cmd → List ℕ → Parse
  panic : Parse
  unfinished : Parse

abbrev pub and_then : Parse → (Cmd → List ℕ → Parse) → Parse
and_then (parsed c s) k = k c s
and_then panic k = panic
and_then unfinished k = unfinished

-- MAXARGS, O_RDONLY, O_WRONLY|O_CREATE
abbrev pub maxargs : ℕ
maxargs = 10

abbrev pub o_rdonly : ℕ
o_rdonly = 0

abbrev pub o_output : ℕ
o_output = 0x201

-- The switch of parseredirs
abbrev pub redirect : ℕ → List ℕ → Cmd → Cmd
redirect tok file cmd =
    if tok == 60
    then redircmd cmd file o_rdonly 0
    else if tok == 62 || tok == 43
    then redircmd cmd file o_output 1
    else cmd

pub parseredirs : ℕ → Cmd → List ℕ → Parse
unfolding skip next_in gettoken
parseredirs zero cmd s = unfinished
parseredirs (suc n) cmd s = elim (next_in (60 ∷ 62 ∷ []) (skip s)) [
  | false ↦ parsed cmd (skip s)
  | true ↦
      (let tok = gettoken (skip s) in
        let file = gettoken tok.rest in
        elim (file.kind == 97) [
          | false ↦ panic
          | true ↦ parseredirs n (redirect tok.kind file.text cmd) file.rest
        ])
]

-- cmd->argv[argc] = q, where cmd is inside the redirections around it
pub add_arg : List ℕ → Cmd → Cmd
add_arg w (execcmd argv) = execcmd (argv ++ w ∷ [])
add_arg w (redircmd c file mode fd) = redircmd (add_arg w c) file mode fd
add_arg w (pipecmd l r) = pipecmd l r
add_arg w (listcmd l r) = listcmd l r
add_arg w (backcmd c) = backcmd c

-- The loop of parseexec
pub parse_args : ℕ → ℕ → Cmd → List ℕ → Parse
unfolding skip next_in gettoken add_arg parseredirs
parse_args zero argc cmd s = unfinished
parse_args (suc n) argc cmd s = elim (next_in (124 ∷ 41 ∷ 38 ∷ 59 ∷ []) (skip s)) [
  | true ↦ parsed cmd (skip s)
  | false ↦
      (let tok = gettoken (skip s) in
        elim (tok.kind == 0) [
          | true ↦ parsed cmd tok.rest
          | false ↦ elim (tok.kind == 97 && ltb (argc + 1) maxargs) [
            | false ↦ panic
            | true ↦
                and_then (parseredirs n (add_arg tok.text cmd) tok.rest) (parse_args n (argc + 1))
          ]
        ])
]

module _ (line : List ℕ → Parse) where
  pub parseblock : ℕ → List ℕ → Parse
  unfolding skip next_in gettoken parseredirs
  parseblock n s =
      if next_in (40 ∷ []) (skip s)
      then and_then (line (gettoken (skip s)).rest) (λ cmd s'.
        if next_in (41 ∷ []) (skip s') then parseredirs n cmd (gettoken (skip s')).rest else panic)
      else panic

  pub parseexec : ℕ → List ℕ → Parse
  unfolding skip next_in parseblock parseredirs parse_args
  parseexec n s =
      if next_in (40 ∷ []) (skip s)
      then parseblock n (skip s)
      else and_then (parseredirs n (execcmd []) (skip s)) (parse_args n 0)

  pub parsepipe : ℕ → List ℕ → Parse
  unfolding skip next_in gettoken parseexec
  parsepipe zero s = unfinished
  parsepipe (suc n) s =
      let more = parsepipe n in
      and_then (parseexec (suc n) s) (λ cmd s'.
        if next_in (124 ∷ []) (skip s')
        then and_then (more (gettoken (skip s')).rest) (λ right. parsed (pipecmd cmd right))
        else parsed cmd (skip s'))

-- The loop of parseline over '&'
pub parse_backs : ℕ → Cmd → List ℕ → Parse
unfolding skip next_in gettoken
parse_backs zero cmd s = unfinished
parse_backs (suc n) cmd s = elim (next_in (38 ∷ []) (skip s)) [
  | true ↦ parse_backs n (backcmd cmd) (gettoken (skip s)).rest
  | false ↦ parsed cmd (skip s)
]

pub parseline : ℕ → List ℕ → Parse
unfolding skip next_in gettoken parsepipe parse_backs
parseline zero s = unfinished
parseline (suc n) s =
    let line = parseline n in
    and_then (and_then (parsepipe line (suc n) s) (parse_backs (suc n))) (λ cmd s'.
      if next_in (59 ∷ []) (skip s')
      then and_then (line (gettoken (skip s')).rest) (λ right. parsed (listcmd cmd right))
      else parsed cmd (skip s'))

-- The end of parsecmd: nothing but white space may be left.
pub at_end : Cmd → List ℕ → Parse
at_end cmd [] = parsed cmd []
at_end cmd (c ∷ s) = panic

pub parsecmd : List ℕ → Parse
unfolding skip parseline at_end
parsecmd s = and_then (parseline (suc (length s)) s) (λ cmd s'. at_end cmd (skip s'))
