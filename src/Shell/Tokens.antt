-- ===== src/Shell/Tokens.antt =====
-- The tokens of words and of symbols.
use cmpt.Prelude.{
  ℕ, All, ne→==, ==→ne, ◌≡◌, refl, sym, ◌∙◌, ap, false, List, [], ◌∷◌, ◌++◌, ◌==◌, Bool-cases, inl,
  inr, false-ne_true,
}
use cmpt.Shell.{whitespace, symbols, strchr, skip, word_text, word_end, token_at, gettoken, next_in}

-- A character of a word, in the words of gettoken
abbrev pub InWord : ℕ → Type 0
InWord c = (strchr whitespace c ≡ false) × (strchr symbols c ≡ false)

abbrev AllInWord : List ℕ → Type 0
AllInWord [] = Unit
AllInWord (c ∷ w) = InWord c × AllInWord w

-- A word has a character, and all its characters are of words.
abbrev pub IsWord : List ℕ → Type 0
IsWord [] = ⊥
IsWord (c ∷ w) = InWord c × AllInWord w

-- What starts with a character other than white space
abbrev pub Solid : List ℕ → Type 0
Solid s = skip s ≡ s

pub word_Solid : (w s : List ℕ) → IsWord w → Solid (w ++ s)
unfolding skip
word_Solid [] s v = absurd v
word_Solid (c ∷ w) s ((p, q), v) = rw p refl

text_of : (w s : List ℕ) → AllInWord w → word_text (w ++ 32 ∷ s) ≡ w
unfolding word_text
text_of [] s v = refl
text_of (c ∷ w) s ((p, q), v) = rw (p, q) (ap (λ l. c ∷ l) (text_of w s v))

end_of : (w s : List ℕ) → AllInWord w → word_end (w ++ 32 ∷ s) ≡ 32 ∷ s
unfolding word_end
end_of [] s v = refl
end_of (c ∷ w) s ((p, q), v) = rw (p, q) (end_of w s v)

pub no_char : (toks : List ℕ) (c : ℕ) → strchr toks c ≡ false → All (λ x. (x == c) ≡ false) toks
no_char [] c p = tt
no_char (x ∷ toks) c p = elim (Bool-cases (x == c)) [
  | inl y ↦ absurd (false-ne_true (sym p ∙ (rw y refl)))
  | inr n ↦ (n, no_char toks c (sym (rw n refl) ∙ p))
]

pub strchr_none : (toks : List ℕ) (c : ℕ) → All (λ x. (x == c) ≡ false) toks → strchr toks c ≡ false
strchr_none [] c v = refl
strchr_none (x ∷ toks) c (n, v) = rw n (strchr_none toks c v)

-- A character of a word is none of the symbols.
pub record Plain (c : ℕ) : Type 0 where
  pub no_single : strchr (124 ∷ 40 ∷ 41 ∷ 59 ∷ 38 ∷ 60 ∷ []) c ≡ false
  pub no_greater : (c == 62) ≡ false
  pub no_redirection : strchr (60 ∷ 62 ∷ []) c ≡ false
  pub no_block : strchr (40 ∷ []) c ≡ false
  pub no_end : strchr (124 ∷ 41 ∷ 38 ∷ 59 ∷ []) c ≡ false

pub InWord-Plain : (c : ℕ) → InWord c → Plain c
InWord-Plain c (p, q) =
    let (lt, (bar, (gt, (amp, (semi, (left, (right, _))))))) = no_char symbols c q in
    record {
      no_single =
          strchr_none (124 ∷ 40 ∷ 41 ∷ 59 ∷ 38 ∷ 60 ∷ []) c
            (bar, (left, (right, (semi, (amp, (lt, tt))))));
      no_greater = ne→== c 62 (λ e. ==→ne 62 c gt (sym e));
      no_redirection = strchr_none (60 ∷ 62 ∷ []) c (lt, (gt, tt));
      no_block = strchr_none (40 ∷ []) c (left, tt);
      no_end = strchr_none (124 ∷ 41 ∷ 38 ∷ 59 ∷ []) c (bar, (right, (amp, (semi, tt))));
    }

-- gettoken at a word that a space follows
pub gettoken-word :
    (w s : List ℕ)
    → IsWord w
    → Solid s
    → gettoken (w ++ 32 ∷ s) ≡ record { kind = 97; text = w; rest = s }
unfolding gettoken token_at word_text word_end
gettoken-word [] s v e = absurd v
gettoken-word (c ∷ w) s ((p, q), v) e =
    let k = InWord-Plain c (p, q) in
    rw
      (
        word_Solid (c ∷ w) (32 ∷ s) ((p, q), v),
        k.no_single,
        k.no_greater,
        p,
        q,
        text_of w s v,
        end_of w s v,
      )
      (ap (λ r. record { kind = 97; text = c ∷ w; rest = r }) e)

-- A word starts neither a redirection nor a block, and it ends no command.
pub word_first :
    (w s : List ℕ)
    → IsWord w
    → (next_in (60 ∷ 62 ∷ []) (w ++ s) ≡ false)
      × (next_in (40 ∷ []) (w ++ s) ≡ false)
      × (next_in (124 ∷ 41 ∷ 38 ∷ 59 ∷ []) (w ++ s) ≡ false)
unfolding next_in
word_first [] s v = absurd v
word_first (c ∷ w) s (k, v) = let p = InWord-Plain c k in (p.no_redirection, p.no_block, p.no_end)
