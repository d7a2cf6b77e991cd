-- ===== src/Strings/Compares.antt =====
-- memcmp and strncmp tell equal strings.
use cmpt.Prelude.{
  ℕ, zero, suc, ◌+◌, ◌-◌, ◌%◌, ◌^◌, ◌<◌, ◌≤◌, ◌≡◌, ◌≢◌, ◌↔◌, inl, inr, refl, ◌∙◌, sym, ap, subst,
  arith, not, ◌&&◌, ◌==◌, Bool-cases, ==→eq, ==→ne, tests,
}
use cmpt.Strings.{memcmp, compare_from, strncmp, differ_from}

abbrev pub Bytes : (ℕ → ℕ) → Type 0
Bytes s = (i : ℕ) → s i < 256

diff_zero : (x y : ℕ) → x < 256 → y < 256 → (x + 2 ^ 32 - y) % 2 ^ 32 ≡ 0 → x ≡ y
diff_zero x y lx ly e = omega arith

diff_same : (x y : ℕ) → x < 256 → x ≡ y → (x + 2 ^ 32 - y) % 2 ^ 32 ≡ 0
diff_same x y lx e = omega arith

at_index : (a b : ℕ → ℕ) (m i : ℕ) → m ≡ i → a i ≡ b i → a m ≡ b m
at_index a b m i e same = subst (λ n. a n ≡ b n) (sym e) same

compare_from_equal :
    (n i : ℕ) (a b : ℕ → ℕ)
    → Bytes a
    → Bytes b
    → (compare_from n i a b ≡ 0) ↔ ((m : ℕ) → i ≤ m → m < i + n → a m ≡ b m)
unfolding compare_from
compare_from_equal zero i a b sa sb = (λ _ m le lt. absurd (omega arith), λ _. refl)
compare_from_equal (suc n) i a b sa sb = elim (Bool-cases (a i == b i)) [
  | inl same ↦
      let (right, left) = compare_from_equal n (i + 1) a b sa sb in
      rw same (
        λ e m le lt. elim (Bool-cases (m == i)) [
          | inl here ↦ at_index a b m i (==→eq m i here) (==→eq (a i) (b i) same)
          | inr later ↦ right e m (omega (tests, ==→ne m i later)) (omega arith)
        ],
        λ all. left (λ m le lt. all m (omega arith) (omega arith)),
      )
  | inr other ↦
      let ne : a i ≢ b i = ==→ne (a i) (b i) other in
      rw other (
        λ e. absurd (ne (diff_zero (a i) (b i) (sa i) (sb i) e)),
        λ all. absurd (ne (all i (omega arith) (omega arith))),
      )
]

-- the strings agree on n characters, or up to the end of one of them
abbrev pub Agree : ℕ → ℕ → (ℕ → ℕ) → (ℕ → ℕ) → Type 0
Agree i n p q = (m : ℕ) → i ≤ m → m < i + n → ((j : ℕ) → i ≤ j → j < m → p j ≢ 0) → p m ≡ q m

differ_from-Agree :
    (n i : ℕ) (p q : ℕ → ℕ) → Bytes p → Bytes q → (differ_from n i p q ≡ 0) ↔ Agree i n p q
unfolding differ_from
differ_from-Agree zero i p q sp sq = (λ _ m le lt. absurd (omega arith), λ _. refl)
differ_from-Agree (suc n) i p q sp sq = elim (Bool-cases (not (p i == 0) && (p i == q i))) [
  | inl goes ↦
      let live : p i ≢ 0 = λ z. ground (arith, goes, z) in
      let same : p i ≡ q i = ground (arith, goes) in
      let (right, left) = differ_from-Agree n (i + 1) p q sp sq in
      rw goes (
        λ e m le lt before. elim (Bool-cases (m == i)) [
          | inl here ↦ at_index p q m i (==→eq m i here) same
          | inr later ↦
              right e m (omega (tests, ==→ne m i later)) (omega arith)
                (λ j lj l. before j (omega arith) l)
        ],
        λ all. left (λ m le lt before. all m (omega arith) (omega arith) (λ j lj l z.
            elim (Bool-cases (j == i)) [
              | inl here ↦ live (ap p (sym (==→eq j i here)) ∙ z)
              | inr later ↦ before j (omega (tests, ==→ne j i later)) l z
            ])),
      )
  | inr stops ↦ rw stops (
    λ e m le lt before.
        let same : p i ≡ q i = diff_zero (p i) (q i) (sp i) (sq i) e in
        let ends : p i ≡ 0 = ground (arith, stops, same) in
        elim (Bool-cases (m == i)) [
          | inl here ↦ at_index p q m i (==→eq m i here) same
          | inr later ↦ absurd (before i (omega arith) (omega (tests, ==→ne m i later)) ends)
        ],
    λ all.
        diff_same (p i) (q i) (sp i)
          (all i (omega arith) (omega arith) (λ j le lt. absurd (omega arith))),
  )
]

-- memcmp of two runs of n bytes returns 0 exactly when the runs are equal.
pub memcmp_equal :
    (a b : ℕ → ℕ) (n : ℕ) → Bytes a → Bytes b → (memcmp a b n ≡ 0) ↔ ((m : ℕ) → m < n → a m ≡ b m)
unfolding memcmp
memcmp_equal a b n sa sb =
    let (right, left) = compare_from_equal n 0 a b sa sb in
    (λ e m lt. right e m (omega arith) (omega arith), λ all. left (λ m le lt. all m (omega arith)))

-- strncmp of two strings of bytes returns 0 exactly when they agree on their first n characters,
-- or up to and with the end of the first string if that comes before.
pub strncmp-Agree : (p q : ℕ → ℕ) (n : ℕ) → Bytes p → Bytes q → (strncmp p q n ≡ 0) ↔ Agree 0 n p q
unfolding strncmp
strncmp-Agree p q n sp sq = differ_from-Agree n 0 p q sp sq
