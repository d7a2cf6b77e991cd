-- ===== src/Console/Storing.antt =====
-- A character that goes into the keyboard's buffer, at the end of its line.
use cmpt.Prelude.{
  ℕ, suc, ◌+◌, ◌%◌, ◌<◌, ◌≡◌, ◌≢◌, refl, ap, subst, sym, ◌∙◌, [], ◌∷◌, ◌++◌, arith, update, length,
  update-ne, update_self, ◌==◌, Bool-cases, inl, inr, ==→eq, ==→ne, eq→==, ne→==,
}
use mathlib.Core.List.{append_assoc}
use cmpt.Console.{Input, input_buf, wrap, newline}
use cmpt.Console.Ring.{
  IsValid, keys, ready, line, ready_count, line_count, keys-snoc, keys-update, keys-add,
  length-keys,
}

-- Storing a character behind the line
module _ (s : Input) (v : IsValid s) (c : ℕ)
    (space : ready_count s + line_count s < input_buf) where
  abbrev pub stored : ℕ → ℕ
  stored = update s.buf (s.e % input_buf) c

  abbrev pub grown : Input
  grown = record s { buf = stored; e = wrap (s.e + 1) }

  line_count-grown : line_count grown ≡ suc (line_count s)
  line_count-grown = omega (arith, v.e_range, v.w_range, space)

  ready-stored : keys stored s.r (ready_count s) ≡ ready s
  unfolding ready
  ready-stored =
      keys-update s.buf c (s.e % input_buf) s.r (ready_count s)
        (λ i lt q. omega (arith, v.e_range, v.w_range, v.r_range))

  pub ready-grown : ready grown ≡ ready s
  unfolding ready
  ready-grown = ready-stored

  line_kept : (i : ℕ) → i < line_count s → wrap (s.w + i) % input_buf ≢ s.e % input_buf
  line_kept i lt q = omega (arith, v.e_range, v.w_range)

  last_stored : stored (wrap (s.w + line_count s) % input_buf) ≡ c
  last_stored = update_self s.buf (s.e % input_buf) c _ (omega (arith, v.e_range, v.w_range))

  line-stored : keys stored s.w (suc (line_count s)) ≡ line s ++ c ∷ []
  unfolding line
  line-stored =
      rw
        (
          keys-snoc stored s.w (line_count s),
          last_stored,
          keys-update s.buf c (s.e % input_buf) s.w (line_count s) line_kept,
        )
        refl

  pub line-grown : line grown ≡ line s ++ c ∷ []
  unfolding line
  line-grown = rw line_count-grown line-stored

  pub grown-IsValid : c ≢ newline → IsValid grown
  grown-IsValid ne = record {
    r_range = v.r_range;
    w_range = v.w_range;
    e_range = omega arith;
    fits = omega (arith, line_count-grown);
    unbroken = λ i lt. elim (Bool-cases (i == line_count s)) [
      | inl last ↦
          subst (λ n. stored (wrap (s.w + n) % input_buf) ≢ newline) (sym (==→eq i _ last))
            (λ q. ne (sym last_stored ∙ q))
      | inr before ↦
          let lt' : i < line_count s = omega (arith, line_count-grown, ==→ne i _ before) in
          subst (λ x. x ≢ newline) (sym (update-ne s.buf (s.e % input_buf) c _ (line_kept i lt')))
            (v.unbroken i lt')
    ];
  }

  abbrev pub committed : Input
  committed = record grown { w = wrap (s.e + 1) }

  line_count-committed : line_count committed ≡ 0
  line_count-committed = omega arith

  ready_count-committed : ready_count committed ≡ ready_count s + suc (line_count s)
  ready_count-committed = omega (arith, v.e_range, v.w_range, v.r_range)

  pub committed-IsValid : IsValid committed
  committed-IsValid = record {
    r_range = v.r_range;
    w_range = omega arith;
    e_range = omega arith;
    fits = omega (arith, line_count-committed, ready_count-committed);
    unbroken = λ i lt. absurd (omega (arith, line_count-committed));
  }

  pub ready-committed : ready committed ≡ ready s ++ line s ++ c ∷ []
  unfolding ready
  ready-committed =
      let e : wrap (s.r + ready_count s) ≡ s.w = omega (arith, v.w_range, v.r_range) in
      rw
        (
          ready_count-committed,
          keys-add stored s.r (ready_count s) (suc (line_count s)),
          e,
          ready-stored,
        )
        (ap (λ l. ready s ++ l) line-stored ∙ sym (append_assoc (ready s) (line s) (c ∷ [])))

  pub line-committed : line committed ≡ []
  unfolding line keys
  line-committed = rw line_count-committed refl

pub length-ready : (s : Input) → length (ready s) ≡ ready_count s
unfolding ready
length-ready s = length-keys s.buf s.r (ready_count s)

pub length-line : (s : Input) → length (line s) ≡ line_count s
unfolding line
length-line s = length-keys s.buf s.w (line_count s)

-- The test for a full buffer
pub full_eq :
    (s : Input)
    → IsValid s
    → ready_count s + line_count s < input_buf
    → (wrap (s.e + 1) == wrap (s.r + input_buf))
      ≡ (length (ready s) + length (line s) + 1 == input_buf)
full_eq s v space =
    rw (length-ready s, length-line s)
      (elim (Bool-cases (ready_count s + line_count s + 1 == input_buf)) [
        | inl y ↦ rw y (eq→== _ _ (omega (arith, ==→eq _ _ y, v.e_range, v.w_range, v.r_range)))
        | inr n ↦
            rw n (ne→== _ _ (λ q. ==→ne _ _ n (omega (arith, v.e_range, v.w_range, v.r_range))))
      ])
