-- ===== src/Console/Erasing.antt =====
-- A backspace and the erasing of a line, in the keyboard's buffer.
use cmpt.Prelude.{
  ℕ, zero, suc, ◌+◌, ◌-◌, ◌%◌, ◌^◌, ◌≡◌, ◌≢◌, refl, ap, subst, sym, ◌∙◌, List, [], ◌∷◌, ◌++◌, arith,
  ne→==,
}
use cmpt.Console.{Input, Output, consputc, input_buf, wrap, newline, backspace, back, kill_line}
use cmpt.Console.Ring.{IsValid, keys, line, line_count, keys-snoc}

-- The line without its last character
unfoldable pub drop_last : List ℕ → List ℕ
drop_last [] = []
drop_last (c ∷ []) = []
drop_last (c ∷ d ∷ l) = c ∷ drop_last (d ∷ l)

-- One backspace on the screen for each character
unfoldable pub erase : List ℕ → List Output
erase [] = []
erase (c ∷ l) = consputc backspace ∷ erase l

pub drop_last-snoc : (l : List ℕ) (c : ℕ) → drop_last (l ++ c ∷ []) ≡ l
unfolding drop_last
drop_last-snoc [] c = refl
drop_last-snoc (d ∷ []) c = refl
drop_last-snoc (d ∷ x ∷ l) c = ap (λ l. d ∷ l) (drop_last-snoc (x ∷ l) c)

erase-snoc : (l : List ℕ) (c : ℕ) → erase (l ++ c ∷ []) ≡ consputc backspace ∷ erase l
unfolding erase
erase-snoc [] c = refl
erase-snoc (d ∷ l) c = ap (λ l. consputc backspace ∷ l) (erase-snoc l c)

module _ (s : Input) (v : IsValid s) where
  line_count-back : (k : ℕ) → line_count s ≡ suc k → line_count (back s) ≡ k
  line_count-back k e = omega (arith, v.e_range, v.w_range)

  pub back-IsValid : (k : ℕ) → line_count s ≡ suc k → IsValid (back s)
  back-IsValid k e = record {
    r_range = v.r_range;
    w_range = v.w_range;
    e_range = omega arith;
    fits = omega (arith, v.fits, line_count-back k e);
    unbroken = λ i lt. v.unbroken i (omega (arith, line_count-back k e));
  }

  last_key : (k : ℕ) → line_count s ≡ suc k → wrap (s.w + k) ≡ wrap (s.e + (2 ^ 32 - 1))
  last_key k e = omega (arith, v.e_range, v.w_range)

  pub line-back :
      (k : ℕ)
      → line_count s ≡ suc k
      → line s ≡ line (back s) ++ s.buf (wrap (s.e + (2 ^ 32 - 1)) % input_buf) ∷ []
  unfolding line
  line-back k e = rw (e, line_count-back k e, keys-snoc s.buf s.w k, last_key k e) refl

  pub count_zero : line_count s ≡ 0 → s.e ≡ s.w
  count_zero e = omega (arith, v.e_range, v.w_range)

  pub count_ne : (k : ℕ) → line_count s ≡ suc k → s.e ≢ s.w
  count_ne k e q = omega (arith, v.e_range, v.w_range)

  not_newline :
      (k : ℕ) → line_count s ≡ suc k → s.buf (wrap (s.e + (2 ^ 32 - 1)) % input_buf) ≢ newline
  not_newline k e =
      subst (λ n. s.buf (n % input_buf) ≢ newline) (last_key k e) (v.unbroken k (omega (arith, e)))

-- The loop of C('U') ends at the beginning of the line.
pub kill_line-erase :
    (n : ℕ) (s : Input)
    → IsValid s
    → line_count s ≡ n
    → kill_line n s ≡ (record s { e = s.w }, erase (line s))
unfolding kill_line line erase keys
kill_line-erase zero s v q = rw (q, sym (count_zero s v q)) refl
kill_line-erase (suc n) s v q =
    let rest = kill_line-erase n (back s) (back-IsValid s v n q) (line_count-back s v n q) in
    rw (ne→== s.e s.w (count_ne s v n q), ne→== _ newline (not_newline s v n q), rest)
      (ap (λ o. (record s { e = s.w }, o))
        (sym (ap erase (line-back s v n q) ∙ erase-snoc (line (back s)) _)))
