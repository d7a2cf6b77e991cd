-- ===== src/Console/Lines.antt =====
-- consoleread against the characters that are ready.
use cmpt.Prelude.{
  ℕ, zero, suc, ◌+◌, ◌-◌, ◌%◌, ◌^◌, ◌<◌, ◌≤◌, ◌≡◌, ◌≢◌, refl, ap, sym, ◌∙◌, Bool, true, false, not,
  ◌&&◌, ◌||◌, List, [], ◌∷◌, arith, length, take, drop, take-nil, ltb, ◌==◌, if◌then◌else◌,
  Bool-cases, inl, inr, ==→eq, ==→ne, eq→==, ne→==, lt→ltb, le→ltb, ltb→lt, ltb→le,
}
use cmpt.Console.{
  Input, input_buf, wrap, newline, ctrl, ReadRun, LineEnd, returned, interrupted, sleeping,
  consoleread, took,
}
use cmpt.Console.Ring.{IsValid, keys, ready, line, ready_count}

-- The characters up to the first newline, with it, or up to the first C('D'), without it
pub first_line : List ℕ → List ℕ
first_line [] = []
first_line (c ∷ q) = if c == ctrl 68 then [] else if c == newline then c ∷ [] else c ∷ first_line q

-- Whether one of these ends the line
pub complete : List ℕ → Bool
complete [] = false
complete (c ∷ q) = c == ctrl 68 || (c == newline || complete q)

-- A C('D') is taken when nothing was read before it, and left when something was.
pub swallowed : ℕ → ℕ → List ℕ → ℕ
swallowed target zero q = 0
swallowed target (suc n) [] = 0
swallowed target (suc n) (c ∷ q) = if c == ctrl 68 && not (ltb (suc n) target) then 1 else 0

pub end_of : Bool → ℕ → List ℕ → LineEnd
end_of killed n q =
    if ltb (length (first_line q)) n && not (complete q)
    then (if killed then interrupted else sleeping)
    else returned

pub record Reads (killed : Bool) (target n : ℕ) (s : Input) (o : ReadRun) : Type 0 where
  pub valid : IsValid o.input
  pub edited : line o.input ≡ line s
  pub bytes : o.bytes ≡ take n (first_line (ready s))
  pub rest : ready o.input ≡ drop (length o.bytes + swallowed target n (ready s)) (ready s)
  pub ending : o.ending ≡ end_of killed n (ready s)

end_of-complete :
    (killed : Bool) (n : ℕ) (q : List ℕ) → complete q ≡ true → end_of killed n q ≡ returned
unfolding end_of
end_of-complete killed n q e =
    rw e
      (elim (ltb (length (first_line q)) n)
        as (λ b.
          (if b && not true then (if killed then interrupted else sleeping) else returned)
          ≡ returned) [ true ↦ refl | false ↦ refl ])

end_of-zero : (killed : Bool) (q : List ℕ) → end_of killed 0 q ≡ returned
unfolding end_of
end_of-zero killed q = rw (le→ltb (length (first_line q)) 0 (omega arith)) refl

ltb-suc : (a b : ℕ) → ltb (suc a) (suc b) ≡ ltb a b
ltb-suc a b = elim (Bool-cases (ltb a b)) [
  | inl y ↦ rw y (lt→ltb _ _ (omega (arith, ltb→lt a b y)))
  | inr n ↦ rw n (le→ltb _ _ (omega (arith, ltb→le a b n)))
]

end_of-next :
    (killed : Bool) (n c : ℕ) (q : List ℕ)
    → c ≢ ctrl 68
    → c ≢ newline
    → end_of killed (suc n) (c ∷ q) ≡ end_of killed n q
unfolding end_of first_line complete
end_of-next killed n c q d e = rw (ne→== _ _ d, ne→== _ _ e, ltb-suc (length (first_line q)) n) refl

abbrev next : Input → Input
next s = record s { r = wrap (s.r + 1) }

module _ (s : Input) (v : IsValid s) where
  ready-none : s.r ≡ s.w → ready s ≡ []
  unfolding ready keys
  ready-none e = let q : ready_count s ≡ 0 = omega (arith, v.r_range, v.w_range) in rw q refl

  count-next : s.r ≢ s.w → ready_count s ≡ suc (ready_count (next s))
  count-next ne = omega (arith, v.r_range, v.w_range)

  ready-next : s.r ≢ s.w → ready s ≡ s.buf (s.r % input_buf) ∷ ready (next s)
  unfolding ready keys
  ready-next ne = rw (count-next ne) refl

  next-IsValid : s.r ≢ s.w → IsValid (next s)
  next-IsValid ne = record {
    r_range = omega arith;
    w_range = v.w_range;
    e_range = v.e_range;
    fits = omega (arith, v.fits, count-next ne);
    unbroken = v.unbroken;
  }

  next_back : wrap (wrap (s.r + 1) + (2 ^ 32 - 1)) ≡ s.r
  next_back = omega (arith, v.r_range)

and_false : (b : Bool) {A : Type 0} (x y : A) → (if b && not true then x else y) ≡ y
and_false true x y = refl
and_false false x y = refl

swallowed_later : (target n : ℕ) (q : List ℕ) → n < target → swallowed target n q ≡ 0
unfolding swallowed
swallowed_later target zero q lt = refl
swallowed_later target (suc n) [] lt = refl
swallowed_later target (suc n) (c ∷ q) lt =
    rw (lt→ltb (suc n) target lt) (and_false (c == ctrl 68) 1 0)

module _ (killed : Bool) (target n : ℕ) (s : Input) (v : IsValid s) (le : suc n ≤ target) where
  abbrev key : ℕ
  key = s.buf (s.r % input_buf)

  nothing_ready :
      s.r ≡ s.w
      → Reads killed target
          (suc n)
          s
          (record { input = s; bytes = []; ending = if killed then interrupted else sleeping })
  unfolding first_line swallowed complete end_of
  nothing_ready e = record {
    valid = v;
    edited = refl;
    bytes = rw (ready-none s v e) refl;
    rest = rw (ready-none s v e) refl;
    ending = rw (ready-none s v e, lt→ltb 0 (suc n) (omega arith)) refl;
  }

  module _ (ne : s.r ≢ s.w) where
    at_eof :
        key ≡ ctrl 68
        → Reads killed target (suc n) s (record {
          input =
              if ltb (suc n) target
              then record (next s) { r = wrap ((next s).r + (2 ^ 32 - 1)) }
              else next s;
          bytes = [];
          ending = returned;
        })
    unfolding first_line swallowed complete line
    at_eof e =
        let c : key == ctrl 68 ≡ true = eq→== _ _ e in
        elim (Bool-cases (ltb (suc n) target)) [
          | inl less ↦
              rw (less, next_back s v)
                (record {
                  valid = v;
                  edited = refl;
                  bytes = rw (ready-next s v ne, c) refl;
                  rest = rw (ready-next s v ne, c, less) refl;
                  ending =
                      sym
                        (end_of-complete killed (suc n) (ready s) (rw (ready-next s v ne, c) refl));
                })
          | inr full ↦ rw full (record {
            valid = next-IsValid s v ne;
            edited = refl;
            bytes = rw (ready-next s v ne, c) refl;
            rest = rw (ready-next s v ne, c, full) refl;
            ending =
                sym (end_of-complete killed (suc n) (ready s) (rw (ready-next s v ne, c) refl));
          })
        ]

    at_newline :
        key ≡ newline
        → Reads killed target
            (suc n)
            s
            (record { input = next s; bytes = key ∷ []; ending = returned })
    unfolding first_line swallowed complete line
    at_newline e = record {
      valid = next-IsValid s v ne;
      edited = refl;
      bytes = rw (ready-next s v ne, e) (ap (λ l. newline ∷ l) (sym (take-nil n)));
      rest = rw (ready-next s v ne, e) refl;
      ending = sym (end_of-complete killed (suc n) (ready s) (rw (ready-next s v ne, e) refl));
    }

    at_key :
        (o : ReadRun)
        → key ≢ ctrl 68
        → key ≢ newline
        → Reads killed target n (next s) o
        → Reads killed target (suc n) s (took key o)
    unfolding first_line swallowed complete line
    at_key o c d ih =
        let later = swallowed_later target n (ready (next s)) (omega (arith, le)) in
        let sizes : suc (length o.bytes + swallowed target n (ready (next s)))
            ≡ suc (length o.bytes) + 0 =
          omega (arith, later) in
        record {
          valid = ih.valid;
          edited = ih.edited;
          bytes = rw (ready-next s v ne, ne→== _ _ c, ne→== _ _ d) (ap (λ l. key ∷ l) ih.bytes);
          rest =
              rw (ready-next s v ne, ne→== _ _ c)
                (ih.rest ∙ ap (λ m. drop m (key ∷ ready (next s))) sizes);
          ending = rw (ready-next s v ne, end_of-next killed n key (ready (next s)) c d) ih.ending;
        }

-- A run of consoleread with n bytes left of target stores the characters that are ready up to the
-- end of the line, at most n of them; it takes them and nothing else out of the buffer, but for a
-- C('D') before the first byte. It returns when it has n bytes or the line is complete, and else
-- sleeps, or returns -1 in a killed process. The line that is being edited stays.
pub consoleread-Reads :
    (killed : Bool) (target n : ℕ) (s : Input)
    → IsValid s
    → n ≤ target
    → Reads killed target n s (consoleread killed target n s)
unfolding consoleread swallowed
consoleread-Reads killed target zero s v le = record {
  valid = v;
  edited = refl;
  bytes = refl;
  rest = refl;
  ending = sym (end_of-zero killed (ready s));
}
consoleread-Reads killed target (suc n) s v le = elim (Bool-cases (s.r == s.w)) [
  | inl e ↦ rw e (nothing_ready killed target n s v le (==→eq _ _ e))
  | inr ne ↦
      (let ne' = ==→ne s.r s.w ne in
        rw ne (elim (Bool-cases (s.buf (s.r % input_buf) == ctrl 68)) [
          | inl e ↦ rw e (at_eof killed target n s v le ne' (==→eq _ _ e))
          | inr d ↦ rw d (elim (Bool-cases (s.buf (s.r % input_buf) == newline)) [
            | inl e ↦ rw e (at_newline killed target n s v le ne' (==→eq _ _ e))
            | inr f ↦ rw f (
                at_key killed target n s v le ne' (consoleread killed target n (next s))
                  (==→ne _ _ d) (==→ne _ _ f)
                  (consoleread-Reads killed target n (next s) (next-IsValid s v ne')
                    (omega (arith, le))))
          ])
        ]))
]
