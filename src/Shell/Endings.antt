-- ===== src/Shell/Endings.antt =====
-- The parser ends on every line: its fuel is enough.
use cmpt.Prelude.{
  ℕ, zero, suc, ◌+◌, ◌<◌, ◌≤◌, ◌≡◌, refl, sym, subst, arith, Bool, true, false, ◌&&◌, List, [], ◌∷◌,
  ◌==◌, ltb, ==→ne, ne→==, if◌then◌else◌, length, Bool-cases, inl, inr, false-ne_true,
}
use cmpt.Shell.{
  Cmd, execcmd, pipecmd, listcmd, backcmd, maxargs, whitespace, symbols, strchr, skip, word_end,
  greater, token_at, gettoken, next_in, Parse, parsed, panic, and_then, redirect, parseredirs,
  parse_args, add_arg, parseblock, parseexec, parsepipe, parse_backs, parseline, at_end, parsecmd,
}
use cmpt.Shell.Tokens.{Solid, no_char, strchr_none}

-- A result with at most b characters left, or a panic
pub data Ends (b : ℕ) : Parse → Type 0 where
  ends : (c : Cmd) (s : List ℕ) → length s ≤ b → Ends b (parsed c s)
  panics : Ends b panic

bind :
    {b b' : ℕ} (r : Parse) (k : Cmd → List ℕ → Parse)
    → Ends b r
    → ((c : Cmd) (s : List ℕ) → length s ≤ b → Ends b' (k c s))
    → Ends b' (and_then r k)
bind _ k (ends c s lt) f = f c s lt
bind _ k panics f = panics

weaken : {b b' : ℕ} (r : Parse) → b ≤ b' → Ends b r → Ends b' r
weaken _ le (ends c s lt) = ends c s (omega (arith, le, lt))
weaken _ le panics = panics

Ends-if :
    {b : ℕ} {r r' : Parse} (t : Bool)
    → (t ≡ true → Ends b r)
    → (t ≡ false → Ends b r')
    → Ends b (if t then r else r')
Ends-if true f g = f refl
Ends-if false f g = g refl

length-skip : (s : List ℕ) → length (skip s) ≤ length s
unfolding skip
length-skip [] = omega arith
length-skip (c ∷ s) = ground (arith, length-skip s)

length-word_end : (s : List ℕ) → length (word_end s) ≤ length s
unfolding word_end
length-word_end [] = omega arith
length-word_end (c ∷ s) = ground (arith, length-word_end s)

length-greater : (s : List ℕ) → length (greater s).rest ≤ length s
unfolding greater
length-greater [] = omega arith
length-greater (c ∷ s) = ground (arith, length-skip s, length-skip (c ∷ s))

no_symbol :
    (c : ℕ)
    → strchr (124 ∷ 40 ∷ 41 ∷ 59 ∷ 38 ∷ 60 ∷ []) c ≡ false
    → (c == 62) ≡ false
    → strchr symbols c ≡ false
no_symbol c n g =
    let (bar, (left, (right, (semi, (amp, (lt, _)))))) =
      no_char (124 ∷ 40 ∷ 41 ∷ 59 ∷ 38 ∷ 60 ∷ []) c n in
    let gt : (62 == c) ≡ false = ne→== 62 c (λ e. ==→ne c 62 g (sym e)) in
    strchr_none symbols c (lt, (bar, (gt, (amp, (semi, (left, (right, tt)))))))

-- A token takes at least one character that is no white space.
token_at-short :
    (c : ℕ) (s : List ℕ) → strchr whitespace c ≡ false → length (token_at (c ∷ s)).rest ≤ length s
unfolding token_at word_end
token_at-short c s e = elim (Bool-cases (strchr (124 ∷ 40 ∷ 41 ∷ 59 ∷ 38 ∷ 60 ∷ []) c)) [
  | inl y ↦ rw y (length-skip s)
  | inr n ↦ elim (Bool-cases (c == 62)) [
    | inl g ↦ rw (n, g) (length-greater s)
    | inr g ↦
        rw (n, g, e, no_symbol c n g) (omega (arith, length-skip (word_end s), length-word_end s))
  ]
]

skip-Solid : (s : List ℕ) → Solid (skip s)
unfolding skip
skip-Solid [] = refl
skip-Solid (c ∷ s) = elim (Bool-cases (strchr whitespace c)) [
  | inl y ↦ rw y (skip-Solid s)
  | inr n ↦ rw n (rw n refl)
]

-- A line from its first character that is no white space on
data Start : List ℕ → Type 0 where
  nothing : Start []
  char : (c : ℕ) (s : List ℕ) → strchr whitespace c ≡ false → Start (c ∷ s)

skip-Start : (s : List ℕ) → Start (skip s)
unfolding skip
skip-Start [] = nothing
skip-Start (c ∷ s) = elim (Bool-cases (strchr whitespace c)) [
  | inl y ↦ rw y (skip-Start s)
  | inr n ↦ rw n (char c s n)
]

Start-short : (x : List ℕ) → Start x → 0 < length x → length (token_at x).rest < length x
Start-short _ nothing lt = absurd (omega (arith, lt))
Start-short _ (char c s e) lt = omega (arith, token_at-short c s e)

Start-rest : (x : List ℕ) → Start x → length (token_at x).rest ≤ length x
unfolding token_at
Start-rest _ nothing = omega arith
Start-rest _ (char c s e) = omega (arith, token_at-short c s e)

-- gettoken never goes back, and goes on where peek has found a character.
gettoken-rest : (s : List ℕ) → length (gettoken s).rest ≤ length s
unfolding gettoken
gettoken-rest s = omega (arith, Start-rest (skip s) (skip-Start s), length-skip s)

gettoken-short : (s : List ℕ) → 0 < length (skip s) → length (gettoken (skip s)).rest < length s
unfolding gettoken
gettoken-short s lt =
    subst (λ x. length (token_at x).rest < length s) (sym (skip-Solid s))
      (omega (arith, Start-short (skip s) (skip-Start s) lt, length-skip s))

found_char : (toks s : List ℕ) → next_in toks s ≡ true → 0 < length s
unfolding next_in
found_char toks [] e = absurd (false-ne_true e)
found_char toks (c ∷ s) e = omega arith

parseredirs-Ends :
    (n : ℕ) (c : Cmd) (s : List ℕ) → length s < n → Ends (length s) (parseredirs n c s)
unfolding parseredirs
parseredirs-Ends zero c s lt = absurd (omega (arith, lt))
parseredirs-Ends (suc n) c s lt = elim (Bool-cases (next_in (60 ∷ 62 ∷ []) (skip s))) [
  | inr e ↦ rw (parseredirs, e) (ends c (skip s) (length-skip s))
  | inl e ↦
      (let first = gettoken-short s (found_char (60 ∷ 62 ∷ []) (skip s) e) in
        let tok = gettoken (skip s) in
        let file = gettoken tok.rest in
        let second = gettoken-rest tok.rest in
        rw (parseredirs, e)
          (elim (file.kind == 97)
            as (λ b. Ends (length s) (elim b [
              | false ↦ panic
              | true ↦ parseredirs n (redirect tok.kind file.text c) file.rest
            ])) [
              | false ↦ panics
              | true ↦ weaken _ (omega (arith, first, second)) (
                  parseredirs-Ends n (redirect tok.kind file.text c) file.rest
                    (omega (arith, first, second, lt)))
            ]))
]

kind_short :
    (x : List ℕ) → Start x → ((token_at x).kind == 0) ≡ false → length (token_at x).rest < length x
unfolding token_at
kind_short _ nothing e = absurd (false-ne_true (sym e))
kind_short _ (char c s w) e = omega (arith, token_at-short c s w)

token-short :
    (s : List ℕ)
    → ((gettoken (skip s)).kind == 0) ≡ false
    → length (gettoken (skip s)).rest < length s
unfolding gettoken
token-short s e =
    let same = skip-Solid s in
    subst (λ x. length (token_at x).rest < length s) (sym same)
      (omega (
        arith,
        length-skip s,
        kind_short (skip s) (skip-Start s) (subst (λ x. ((token_at x).kind == 0) ≡ false) same e),
      ))

parse_args-Ends :
    (n argc : ℕ) (c : Cmd) (s : List ℕ) → length s < n → Ends (length s) (parse_args n argc c s)
unfolding parse_args
parse_args-Ends zero argc c s lt = absurd (omega (arith, lt))
parse_args-Ends (suc n) argc c s lt =
    elim (Bool-cases (next_in (124 ∷ 41 ∷ 38 ∷ 59 ∷ []) (skip s))) [
      | inl e ↦ rw (parse_args, e) (ends c (skip s) (length-skip s))
      | inr e ↦
          (let tok = gettoken (skip s) in
            let kept : length tok.rest ≤ length s =
              omega (arith, gettoken-rest (skip s), length-skip s) in
            elim (Bool-cases (tok.kind == 0)) [
              | inl z ↦ rw (parse_args, e, z) (ends c tok.rest kept)
              | inr k ↦
                  (let short = token-short s k in
                    rw (parse_args, e, k)
                      (elim (tok.kind == 97 && ltb (argc + 1) maxargs)
                        as (λ b. Ends (length s) (elim b [
                          | false ↦ panic
                          | true ↦
                              and_then (parseredirs n (add_arg tok.text c) tok.rest)
                                (parse_args n (argc + 1))
                        ])) [
                          | false ↦ panics
                          | true ↦
                              bind _ (parse_args n (argc + 1))
                                (parseredirs-Ends n (add_arg tok.text c) tok.rest
                                  (omega (arith, short, lt)))
                                (λ c' s' le. weaken _ (omega (arith, le, short)) (
                                  parse_args-Ends n (argc + 1) c' s'
                                    (omega (arith, le, short, lt))))
                        ]))
            ])
    ]

module _ (line : List ℕ → Parse) (m : ℕ)
    (ih : (s : List ℕ) → length s < m → Ends (length s) (line s)) where
  parseblock-Ends :
      (n : ℕ) (s : List ℕ) → length s ≤ m → length s < n → Ends (length s) (parseblock line n s)
  unfolding parseblock
  parseblock-Ends n s le lt =
      Ends-if (next_in (40 ∷ []) (skip s))
        (λ e.
          let short = gettoken-short s (found_char (40 ∷ []) (skip s) e) in
          bind _ _ (ih (gettoken (skip s)).rest (omega (arith, le, short))) (λ c s' b.
            Ends-if (next_in (41 ∷ []) (skip s'))
              (λ f.
                let again = gettoken-short s' (found_char (41 ∷ []) (skip s') f) in
                weaken _ (omega (arith, again, b, short)) (
                  parseredirs-Ends n c (gettoken (skip s')).rest
                    (omega (arith, again, b, short, lt))))
              (λ f. panics)))
        (λ e. panics)

  parseexec-Ends :
      (n : ℕ) (s : List ℕ) → length s ≤ m → length s < n → Ends (length s) (parseexec line n s)
  unfolding parseexec
  parseexec-Ends n s le lt =
      let k = length-skip s in
      Ends-if (next_in (40 ∷ []) (skip s))
        (λ e. weaken _ k (parseblock-Ends n (skip s) (omega (arith, k, le)) (omega (arith, k, lt))))
        (λ e.
          bind _ (parse_args n 0) (parseredirs-Ends n (execcmd []) (skip s) (omega (arith, k, lt)))
            (λ c s' b.
              weaken _ (omega (arith, b, k)) (parse_args-Ends n 0 c s' (omega (arith, b, k, lt)))))

  parsepipe-Ends :
      (n : ℕ) (s : List ℕ) → length s ≤ m → length s < n → Ends (length s) (parsepipe line n s)
  unfolding parsepipe
  parsepipe-Ends zero s le lt = absurd (omega (arith, lt))
  parsepipe-Ends (suc n) s le lt = bind _ _ (parseexec-Ends (suc n) s le lt) (λ c s' b.
      Ends-if (next_in (124 ∷ []) (skip s'))
        (λ e.
          let short = gettoken-short s' (found_char (124 ∷ []) (skip s') e) in
          bind _ _
            (parsepipe-Ends n (gettoken (skip s')).rest (omega (arith, short, b, le))
              (omega (arith, short, b, lt)))
            (λ r t d. ends (pipecmd c r) t (omega (arith, d, short, b))))
        (λ e. ends c (skip s') (omega (arith, length-skip s', b))))

parse_backs-Ends :
    (n : ℕ) (c : Cmd) (s : List ℕ) → length s < n → Ends (length s) (parse_backs n c s)
unfolding parse_backs
parse_backs-Ends zero c s lt = absurd (omega (arith, lt))
parse_backs-Ends (suc n) c s lt = elim (Bool-cases (next_in (38 ∷ []) (skip s))) [
  | inl e ↦
      (let short = gettoken-short s (found_char (38 ∷ []) (skip s) e) in
        rw (parse_backs, e)
          (weaken _ (omega (arith, short))
            (parse_backs-Ends n (backcmd c) (gettoken (skip s)).rest (omega (arith, short, lt)))))
  | inr e ↦ rw (parse_backs, e) (ends c (skip s) (length-skip s))
]

parseline-Ends : (n : ℕ) (s : List ℕ) → length s < n → Ends (length s) (parseline n s)
unfolding parseline
parseline-Ends zero s lt = absurd (omega (arith, lt))
parseline-Ends (suc n) s lt =
    bind _ _
      (bind _ (parse_backs (suc n))
        (parsepipe-Ends (parseline n) n (parseline-Ends n) (suc n) s (omega (arith, lt)) lt)
        (λ c s' b. weaken _ b (parse_backs-Ends (suc n) c s' (omega (arith, b, lt)))))
      (λ c s' b.
        Ends-if (next_in (59 ∷ []) (skip s'))
          (λ e.
            let short = gettoken-short s' (found_char (59 ∷ []) (skip s') e) in
            bind _ _ (parseline-Ends n (gettoken (skip s')).rest (omega (arith, short, b, lt)))
              (λ r t d. ends (listcmd c r) t (omega (arith, d, short, b))))
          (λ e. ends c (skip s') (omega (arith, length-skip s', b))))

at_end-Ends : (c : Cmd) (s : List ℕ) → Ends 0 (at_end c s)
unfolding at_end
at_end-Ends c [] = ends c [] (omega arith)
at_end-Ends c (x ∷ s) = panics

-- parsecmd ends on every line: it returns a command, with nothing of the line left, or it panics.
-- The fuel of its loops, one round more than the line has characters, is enough.
pub parsecmd-Ends : (s : List ℕ) → Ends 0 (parsecmd s)
unfolding parsecmd
parsecmd-Ends s =
    bind _ _ (parseline-Ends (suc (length s)) s (omega arith)) (λ c s' b. at_end-Ends c (skip s'))
