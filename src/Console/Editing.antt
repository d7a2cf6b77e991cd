-- ===== src/Console/Editing.antt =====
-- consoleintr against an editor of lists: the characters that are ready, and the line.
use cmpt.Prelude.{
  All, ℕ, zero, suc, ◌+◌, ◌-◌, ◌%◌, ◌^◌, ◌<◌, ◌≡◌, refl, ap, sym, ◌∙◌, Bool, true, false, not, ◌&&◌,
  ◌||◌, List, [], ◌∷◌, ◌++◌, arith, length, ltb, ◌==◌, if◌then◌else◌, false-ne_true, Bool-cases,
  inl, inr, eq→==, ne→==,
}
use cmpt.Console.{
  Input, Output, consputc, procdump, wakeup, input_buf, wrap, newline, carriage_return, delete_key,
  backspace, ctrl, back, kill_line, enter, on_key, consoleintr,
}
use cmpt.Console.Ring.{IsValid, keys, ready, line, ready_count, line_count}
use cmpt.Console.Erasing.{
  drop_last, erase, drop_last-snoc, back-IsValid, line-back, count_zero, count_ne, kill_line-erase,
}
use cmpt.Console.Storing.{
  ready-grown, line-grown, grown-IsValid, committed-IsValid, ready-committed, line-committed,
  length-ready, length-line, full_eq,
}

pub record Editor : Type 0 where
  pub ready_part : List ℕ
  pub line_part : List ℕ

-- A character at the end of the line; a newline, C('D') and a full buffer make the line ready.
abbrev typed : ℕ → Editor → Editor × List Output
typed c s =
    if c == newline || (c == ctrl 68 || length s.ready_part + length s.line_part + 1 == input_buf)
    then (
      record { ready_part = s.ready_part ++ s.line_part ++ c ∷ []; line_part = [] },
      consputc c ∷ wakeup ∷ [],
    )
    else (record s { line_part = s.line_part ++ c ∷ [] }, consputc c ∷ [])

abbrev edit : ℕ → Editor → Editor × List Output
edit c s =
    if c == ctrl 80
    then (s, procdump ∷ [])
    else if c == ctrl 85
    then (record s { line_part = [] }, erase s.line_part)
    else if c == ctrl 72 || c == delete_key
    then (
      record s { line_part = drop_last s.line_part },
      if length s.line_part == 0 then [] else consputc backspace ∷ [],
    )
    else if not (c == 0) && ltb (length s.ready_part + length s.line_part) input_buf
    then typed (if c == carriage_return then newline else c) s
    else (s, [])

-- The editor after a number of characters, and its output
pub edit_all : List ℕ → Editor → Editor × List Output
edit_all [] s = (s, [])
edit_all (c ∷ cs) s = ((edit_all cs (edit c s).0).0, (edit c s).1 ++ (edit_all cs (edit c s).0).1)

pub editor : Input → Editor
editor s = record { ready_part = ready s; line_part = line s }

-- What a call has done to the editor
pub record Edits (s : Input) (expected : Editor × List Output) (out : Input × List Output)
    : Type 0 where
  pub valid : IsValid out.0
  pub parts : editor out.0 ≡ expected.0
  pub output : out.1 ≡ expected.1

enter-Edits :
    (s : Input) (c : ℕ)
    → IsValid s
    → ready_count s + line_count s < input_buf
    → c < 256
    → Edits s (typed c (editor s)) (enter c s)
unfolding enter editor
enter-Edits s c v space byte =
    let b : c % 256 ≡ c = omega arith in
    rw (b, full_eq s v space)
      (elim (Bool-cases
        (c == newline || (c == ctrl 68 || length (ready s) + length (line s) + 1 == input_buf))) [
          | inl y ↦ rw y (record {
            valid = committed-IsValid s v c space;
            parts = rw (ready-committed s v c space, line-committed s v c space) refl;
            output = refl;
          })
          | inr n ↦ rw n (record {
            valid =
                grown-IsValid s v c space
                  (λ q. false-ne_true (sym n ∙ (rw (eq→== c newline q) refl)));
            parts = rw (ready-grown s v c space, line-grown s v c space) refl;
            output = refl;
          })
        ])

space_left : (c n : ℕ) → not (c == 0) && ltb n input_buf ≡ true → n < input_buf
space_left c n q = ground (arith, q)

Edits-if :
    {s : Input} {x x' : Editor × List Output} {y y' : Input × List Output} (b : Bool)
    → (b ≡ true → Edits s x y)
    → (b ≡ false → Edits s x' y')
    → Edits s (if b then x else x') (if b then y else y')
Edits-if true f g = f refl
Edits-if false f g = g refl

module _ (s : Input) (v : IsValid s) where
  erased :
      Edits s (record (editor s) { line_part = [] }, erase (line s)) (kill_line (line_count s) s)
  unfolding editor line keys ready
  erased =
      let none_left : wrap (s.w + 2 ^ 32 - s.w) ≡ 0 = omega (arith, v.w_range) in
      rw (kill_line-erase (line_count s) s v refl) (record {
        valid = record {
          r_range = v.r_range;
          w_range = v.w_range;
          e_range = v.w_range;
          fits = omega (arith, v.fits, none_left);
          unbroken = λ i lt. absurd (omega (arith, lt, none_left));
        };
        parts = rw none_left refl;
        output = refl;
      })

  line_none : line_count s ≡ 0 → line s ≡ []
  unfolding line keys
  line_none q = rw q refl

  one_back :
      (n : ℕ)
      → line_count s ≡ n
      → Edits s
          (
            record (editor s) { line_part = drop_last (line s) },
            if length (line s) == 0 then [] else consputc backspace ∷ [],
          )
          (if not (s.e == s.w) then (back s, consputc backspace ∷ []) else (s, []))
  unfolding editor ready drop_last
  one_back zero q =
      rw (eq→== s.e s.w (count_zero s v q), length-line s, q)
        (record { valid = v; parts = rw (line_none q) refl; output = refl })
  one_back (suc n) q =
      rw (ne→== s.e s.w (count_ne s v n q), length-line s, q, ne→== (suc n) 0 (λ e. omega arith))
        (record {
          valid = back-IsValid s v n q;
          parts =
              ap (λ l. record (editor s) { line_part = l })
                (sym (ap drop_last (line-back s v n q) ∙ drop_last-snoc (line (back s)) _));
          output = refl;
        })

  -- The test for room in the buffer
  room_eq :
      ltb (wrap (s.e + 2 ^ 32 - s.r)) input_buf ≡ ltb (length (ready s) + length (line s)) input_buf
  room_eq =
      rw (length-ready s, length-line s)
        (ap (λ n. ltb n input_buf) (omega (arith, v.e_range, v.w_range, v.r_range, v.fits)))

  unchanged : (out : List Output) → Edits s (editor s, out) (s, out)
  unchanged out = record { valid = v; parts = refl; output = refl }

  on_key-Edits : (c : ℕ) → c < 256 → Edits s (edit c (editor s)) (on_key c s)
  unfolding on_key editor
  on_key-Edits c byte = rw room_eq (
      Edits-if (c == ctrl 80) (λ _. unchanged (procdump ∷ []))
        (λ _.
          Edits-if (c == ctrl 85) (λ _. erased)
            (λ _.
              Edits-if (c == ctrl 72 || c == delete_key) (λ _. one_back (line_count s) refl)
                (λ _.
                  Edits-if (not (c == 0) && ltb (length (ready s) + length (line s)) input_buf)
                    (λ q.
                      enter-Edits s (if c == carriage_return then newline else c) v
                        (omega (arith, length-ready s, length-line s, space_left c _ q))
                        (ground (arith, byte)))
                    (λ _. unchanged [])))))

-- consoleintr does to the buffer what an editor of lines does with the same characters, with the
-- same output, when the characters are bytes: C('U') erases the line, C('H') its last character; a newline, C('D') or the 128th
-- character that is not yet read makes the line ready; a full buffer takes no character.
pub consoleintr-Edits :
    (cs : List ℕ) (s : Input)
    → IsValid s
    → All (λ c. c < 256) cs
    → Edits s (edit_all cs (editor s)) (consoleintr cs s)
unfolding consoleintr edit_all
consoleintr-Edits [] s v all = unchanged s v []
consoleintr-Edits (c ∷ cs) s v (byte, all) =
    let first = on_key-Edits s v c byte in
    let rest = consoleintr-Edits cs (on_key c s).0 first.valid all in
    record {
      valid = rest.valid;
      parts = rest.parts ∙ ap (λ t. (edit_all cs t).0) first.parts;
      output =
          ap (λ o. o ++ (consoleintr cs (on_key c s).0).1) first.output
          ∙ ap (λ o. (edit c (editor s)).1 ++ o)
              (rest.output ∙ ap (λ t. (edit_all cs t).1) first.parts);
    }
