-- ===== src/Grep/Language.antt =====
-- The language of a regular expression, and that the matcher decides it.
use cmpt.Prelude.{
  ℕ, ◌≡◌, ◌≢◌, ◌↔◌, inl, inr, refl, ◌∙◌, sym, ap, subst, arith, Bool, true, false, ◌&&◌, ◌||◌, List,
  [], ◌∷◌, ◌++◌, ◌==◌, Bool-cases, ne→==,
}
use cmpt.Grep.{
  star_char, dollar, dot, caret, matchstar, is_end, match_one, matchhere, match_from, match_re,
}

-- the character fits c of the expression
abbrev pub fits : ℕ → ℕ → Bool
fits c t = t == c || c == dot

unfoldable pub all_fit : ℕ → List ℕ → Bool
all_fit c [] = true
all_fit c (t ∷ text) = fits c t && all_fit c text

-- The expression matches a text from its first character on.
pub data Matches : List ℕ → List ℕ → Type 0 where
  done : {text : List ℕ} → Matches [] text
  end_of_text : {r : ℕ} → (r == dollar) ≡ true → Matches (r ∷ []) []
  last :
      {r t : ℕ} {text : List ℕ}
      → (r == dollar) ≡ false
      → fits r t ≡ true
      → Matches (r ∷ []) (t ∷ text)
  one :
      {r x t : ℕ} {re text : List ℕ}
      → (x == star_char) ≡ false
      → fits r t ≡ true
      → Matches (x ∷ re) text
      → Matches (r ∷ x ∷ re) (t ∷ text)
  star :
      {r x : ℕ} {re : List ℕ} (pre rest : List ℕ)
      → (x == star_char) ≡ true
      → all_fit r pre ≡ true
      → Matches re rest
      → Matches (r ∷ x ∷ re) (pre ++ rest)

matchstar_sound :
    (here : List ℕ → Bool) (c : ℕ) (text : List ℕ)
    → matchstar here c text ≡ true
    → (pre : List ℕ) × (rest : List ℕ) × (text ≡ pre ++ rest)
      × (all_fit c pre ≡ true)
      × (here rest ≡ true)
unfolding matchstar all_fit
matchstar_sound here c [] e = ([], [], refl, refl, e)
matchstar_sound here c (t ∷ text) e = elim (Bool-cases (here (t ∷ text))) [
  | inl now ↦ ([], t ∷ text, refl, refl, now)
  | inr no_match ↦ elim (Bool-cases (fits c t)) [
    | inl fit ↦
        let (pre, rest, split, all, h) =
          matchstar_sound here c text (ground (arith, e, no_match, fit)) in
        (t ∷ pre, rest, ap (λ (xs : List ℕ). t ∷ xs) split, ground (arith, fit, all), h)
    | inr other ↦ absurd (ground (arith, e, no_match, other))
  ]
]

matchstar_complete :
    (here : List ℕ → Bool) (c : ℕ) (pre rest : List ℕ)
    → all_fit c pre ≡ true
    → here rest ≡ true
    → matchstar here c (pre ++ rest) ≡ true
unfolding matchstar all_fit
matchstar_complete here c [] [] all h = h
matchstar_complete here c [] (t ∷ rest) all h = rw h refl
matchstar_complete here c (t ∷ pre) rest all h =
    let more = matchstar_complete here c pre rest (ground (arith, all)) h in
    let fit : fits c t ≡ true = ground (arith, all) in
    elim (Bool-cases (here (t ∷ (pre ++ rest)))) [
      | inl now ↦ rw now refl
      | inr no_match ↦ rw (no_match, fit) more
    ]

starred :
    (r x : ℕ) (re text : List ℕ)
    → (x == star_char) ≡ true
    → matchhere (r ∷ x ∷ re) text ≡ matchstar (matchhere re) r text
unfolding matchhere
starred r x re text e = rw e refl

unstarred :
    (r x : ℕ) (re text : List ℕ)
    → (x == star_char) ≡ false
    → matchhere (r ∷ x ∷ re) text ≡ match_one r (matchhere (x ∷ re)) text
unfolding matchhere
unstarred r x re text e = rw e refl

match_one_sound :
    (r t : ℕ) (here : List ℕ → Bool) (text : List ℕ)
    → match_one r here (t ∷ text) ≡ true
    → (fits r t ≡ true) × (here text ≡ true)
unfolding match_one
match_one_sound r t here text e = (ground (arith, e), ground (arith, e))

match_one_complete :
    (r t : ℕ) (here : List ℕ → Bool) (text : List ℕ)
    → fits r t ≡ true
    → here text ≡ true
    → match_one r here (t ∷ text) ≡ true
unfolding match_one
match_one_complete r t here text f h = ground (arith, f, h)

-- A run of matchstar that succeeds is a match, if the rest of the expression is sound.
starts :
    (r x : ℕ) (re text : List ℕ)
    → (x == star_char) ≡ true
    → ((t : List ℕ) → matchhere re t ≡ true → Matches re t)
    → matchstar (matchhere re) r text ≡ true
    → Matches (r ∷ x ∷ re) text
starts r x re text st sound e =
    let (pre, rest, split, all, h) = matchstar_sound (matchhere re) r text e in
    subst (Matches (r ∷ x ∷ re)) (sym split) (star pre rest st all (sound rest h))

matchhere_sound : (re text : List ℕ) → matchhere re text ≡ true → Matches re text
unfolding matchhere is_end match_one
matchhere_sound [] text e = done
matchhere_sound (r ∷ []) [] e = end_of_text (ground (arith, e))
matchhere_sound (r ∷ []) (t ∷ text) e = last (ground (arith, e)) (ground (arith, e))
matchhere_sound (r ∷ x ∷ re) [] e = elim (Bool-cases (x == star_char)) [
  | inl st ↦ starts r x re [] st (matchhere_sound re) (sym (starred r x re [] st) ∙ e)
  | inr plain ↦ absurd (ground (arith, sym (unstarred r x re [] plain) ∙ e))
]
matchhere_sound (r ∷ x ∷ re) (t ∷ text) e = elim (Bool-cases (x == star_char)) [
  | inl st ↦
      starts r x re (t ∷ text) st (matchhere_sound re) (sym (starred r x re (t ∷ text) st) ∙ e)
  | inr plain ↦
      let (f, more) =
        match_one_sound r t (matchhere (x ∷ re)) text
          (sym (unstarred r x re (t ∷ text) plain) ∙ e) in
      one plain f (matchhere_sound (x ∷ re) text more)
]

matchhere_complete : {re text : List ℕ} → Matches re text → matchhere re text ≡ true
unfolding matchhere is_end match_one
matchhere_complete done = refl
matchhere_complete (end_of_text e) = rw e refl
matchhere_complete (last {r} {t} e f) = ground (arith, e, f)
matchhere_complete (one {r} {x} {t} {re} {text} e f m) =
    unstarred r x re (t ∷ text) e
    ∙ match_one_complete r t (matchhere (x ∷ re)) text f (matchhere_complete m)
matchhere_complete (star {r} {x} {re} pre rest e all m) =
    starred r x re (pre ++ rest) e
    ∙ matchstar_complete (matchhere re) r pre rest all (matchhere_complete m)

match_from_sound :
    (re text : List ℕ)
    → match_from re text ≡ true
    → (pre : List ℕ) × (rest : List ℕ) × (text ≡ pre ++ rest) × Matches re rest
unfolding match_from
match_from_sound re [] e = ([], [], refl, matchhere_sound re [] e)
match_from_sound re (t ∷ text) e = elim (Bool-cases (matchhere re (t ∷ text))) [
  | inl now ↦ ([], t ∷ text, refl, matchhere_sound re (t ∷ text) now)
  | inr later ↦
      let (pre, rest, split, m) = match_from_sound re text (ground (arith, e, later)) in
      (t ∷ pre, rest, ap (λ (xs : List ℕ). t ∷ xs) split, m)
]

match_from_complete : (re pre rest : List ℕ) → Matches re rest → match_from re (pre ++ rest) ≡ true
unfolding match_from
match_from_complete re [] [] m = matchhere_complete m
match_from_complete re [] (t ∷ rest) m = rw (matchhere_complete m) refl
match_from_complete re (t ∷ pre) rest m =
    let more = match_from_complete re pre rest m in
    elim (Bool-cases (matchhere re (t ∷ (pre ++ rest)))) [
      | inl now ↦ rw now refl
      | inr later ↦ rw later more
    ]

-- match on a non-empty expression that does not begin with '^' returns 1 exactly when it
-- matches the text from some place on.
pub match_re-Matches :
    (r : ℕ) (re text : List ℕ)
    → r ≢ caret
    → (match_re (r ∷ re) text ≡ true)
      ↔ ((pre : List ℕ) × (rest : List ℕ) × (text ≡ pre ++ rest) × Matches (r ∷ re) rest)
unfolding match_re
match_re-Matches r re text ne = rw (ne→== r caret ne) (
  match_from_sound (r ∷ re) text,
  λ m.
      let (pre, rest, split, h) = m in
      ap (match_from (r ∷ re)) split ∙ match_from_complete (r ∷ re) pre rest h,
)

-- match on an expression that begins with '^' returns 1 exactly when the rest of the expression
-- matches the text from its beginning.
pub match_re-caret : (re text : List ℕ) → (match_re (caret ∷ re) text ≡ true) ↔ Matches re text
unfolding match_re
match_re-caret re text = (matchhere_sound re text, λ m. matchhere_complete m)
