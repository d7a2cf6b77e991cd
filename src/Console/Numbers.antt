-- ===== src/Console/Numbers.antt =====
-- printint: what it prints reads back as the number.
use cmpt.Prelude.{
  ℕ, zero, suc, ◌+◌, ◌-◌, ◌*◌, ◌/◌, ◌%◌, ◌^◌, ◌<◌, ◌≤◌, ◌≡◌, refl, ap, subst, sym, ◌∙◌, Bool, true,
  false, ◌&&◌, ◌⊎◌, List, [], ◌∷◌, ◌++◌, arith, length, ltb, ◌==◌, if◌then◌else◌, Bool-cases, inl,
  inr, ==→eq, eq→==, length-append,
}
use native.Mathlib.Numerals.{unary_clauses}
use cmpt.Console.{digits_of, is_negative, printint_buf, put_back, printint}

-- The value of a digit's character
pub digit : ℕ → ℕ
digit c = if ltb c 58 then c - 48 else c - 87

-- The value of digits that follow a number a
pub numeral : ℕ → ℕ → List ℕ → ℕ
numeral base a [] = a
numeral base a (c ∷ cs) = numeral base (a * base + digit c) cs

-- The value of digits with the last one first
low_first : ℕ → List ℕ → ℕ
low_first base [] = 0
low_first base (c ∷ cs) = low_first base cs * base + digit c

numeral-put_back :
    (base : ℕ) (ds out : List ℕ)
    → numeral base 0 (put_back ds out) ≡ numeral base (low_first base ds) out
unfolding numeral put_back low_first
numeral-put_back base [] out = refl
numeral-put_back base (d ∷ ds) out = numeral-put_back base ds (d ∷ out)

put_back-snoc :
    (ds : List ℕ) (c : ℕ) (out : List ℕ) → put_back (ds ++ c ∷ []) out ≡ c ∷ put_back ds out
unfolding put_back
put_back-snoc [] c out = refl
put_back-snoc (d ∷ ds) c out = put_back-snoc ds c (d ∷ out)

digit_char : (d : ℕ) → d < 16 → digit (if ltb d 10 then 48 + d else 87 + d) ≡ d
unfolding digit
digit_char d lt = ground arith

-- The bases that cprintf and printf use
abbrev IsBase : ℕ → Type 0
IsBase base = (base ≡ 10) ⊎ (base ≡ 16)

record Divides (base x : ℕ) : Type 0 where
  small : x % base < 16
  whole : x / base * base + x % base ≡ x
  halved : x / base * 2 ≤ x
  tenth : x / base * 10 ≤ x

base-Divides : (base x : ℕ) → IsBase base → Divides base x
base-Divides base x (inl e) =
    subst (λ b. Divides b x) (sym e)
      (record {
        small = omega arith;
        whole = omega arith;
        halved = omega arith;
        tenth = omega arith;
      })
base-Divides base x (inr e) =
    subst (λ b. Divides b x) (sym e)
      (record {
        small = omega arith;
        whole = omega arith;
        halved = omega arith;
        tenth = omega arith;
      })

low_first-digits_of :
    (n x base : ℕ) → IsBase base → x < 2 ^ n → low_first base (digits_of n x base) ≡ x
unfolding low_first digits_of
low_first-digits_of zero x base b lt = omega (arith, lt)
low_first-digits_of (suc n) x base b lt =
    let d = base-Divides base x b in
    let twice : 2 ^ suc n ≡ 2 ^ n * 2 = simp unary_clauses refl in
    let rest = low_first-digits_of n (x / base) base b (omega (arith, d.halved, twice, lt)) in
    elim (Bool-cases (x / base == 0)) [
      | inl e ↦
          rw (e, digit_char (x % base) d.small)
            (ap (λ q. q * base + x % base) (sym (==→eq _ _ e)) ∙ d.whole)
      | inr e ↦ rw (e, digit_char (x % base) d.small, rest) d.whole
    ]

length-digits_of :
    (n k x base : ℕ) → IsBase base → x < 10 ^ suc k → length (digits_of n x base) ≤ suc k
unfolding digits_of
length-digits_of zero k x base b lt = omega arith
length-digits_of (suc n) zero x base b lt =
    let d = base-Divides base x b in
    let e : x / base ≡ 0 = omega (arith, d.tenth, lt) in rw (eq→== _ _ e) (omega arith)
length-digits_of (suc n) (suc k) x base b lt =
    let d = base-Divides base x b in
    let tenfold : 10 ^ suc (suc k) ≡ 10 ^ suc k * 10 = simp unary_clauses refl in
    let rest = length-digits_of n k (x / base) base b (omega (arith, d.tenth, tenfold, lt)) in
    elim (Bool-cases (x / base == 0)) [
      | inl e ↦ rw e (omega arith)
      | inr e ↦ rw e (omega (arith, rest))
    ]

negative_positive : (sign : Bool) (xx : ℕ) → sign && is_negative xx ≡ true → 0 < xx
negative_positive sign xx e = ground (arith, e)

-- What printint prints: a minus sign for a negative int where the sign is asked for, and then the
-- digits of the absolute value, which its buffer has room for.
pub record Printed (xx base : ℕ) (sign : Bool) : Type 0 where
  pub fits : length (printint_buf xx base sign) ≤ 16
  pub negative :
      sign && is_negative xx ≡ true
      → (ds : List ℕ) × (printint xx base sign ≡ 45 ∷ ds) × (numeral base 0 ds ≡ 2 ^ 32 - xx)
  pub positive : sign && is_negative xx ≡ false → numeral base 0 (printint xx base sign) ≡ xx

-- In base 10 and 16 printint prints a numeral whose value is its argument, in at most 16 characters,
-- as many as its buffer has; with sign, a word from 2 ^ 31 on is the negative number that it is as
-- an int, and is printed as a minus sign and the numeral of its absolute value.
pub printint-Printed :
    (xx base : ℕ) (sign : Bool) → IsBase base → xx < 2 ^ 32 → Printed xx base sign
unfolding printint printint_buf numeral
printint-Printed xx base sign b lt = record {
  fits = elim (Bool-cases (sign && is_negative xx)) [
    | inl e ↦
        rw (e, length-append (digits_of 32 ((2 ^ 32 - xx) % 2 ^ 32) base) (45 ∷ []))
          (omega (arith, length-digits_of 32 9 ((2 ^ 32 - xx) % 2 ^ 32) base b (omega arith)))
    | inr e ↦ rw e (omega (arith, length-digits_of 32 9 xx base b (omega (arith, lt))))
  ];
  negative = λ e.
      let m : (2 ^ 32 - xx) % 2 ^ 32 ≡ 2 ^ 32 - xx = omega (arith, negative_positive sign xx e) in
      rw (e, m)
        (
          put_back (digits_of 32 (2 ^ 32 - xx) base) [],
          put_back-snoc (digits_of 32 (2 ^ 32 - xx) base) 45 [],
          numeral-put_back base (digits_of 32 (2 ^ 32 - xx) base) []
              ∙ low_first-digits_of 32 (2 ^ 32 - xx) base b
                  (omega (arith, negative_positive sign xx e)),
        );
  positive = λ e. rw e (
      numeral-put_back base (digits_of 32 xx base) []
      ∙ low_first-digits_of 32 xx base b (omega (arith, lt)));
}
