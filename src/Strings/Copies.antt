-- ===== src/Strings/Copies.antt =====
-- safestrcpy and strncpy keep inside the buffer and copy the string.
use cmpt.Prelude.{
  ℕ, zero, suc, ◌+◌, ◌<◌, ◌≤◌, ◌≡◌, ◌≢◌, ◌⊎◌, inl, inr, refl, ◌∙◌, sym, ap, subst, arith, false,
  ◌==◌, update, update-ne, update_self, Bool-cases, ==→eq, ==→ne, tests,
}
use cmpt.Strings.{safestrcpy, copy_chars, strncpy, copy_pad, pad}

-- What a copy of src to a buffer leaves: a terminator at one of the indices from i to `last`, the
-- characters of src before it, and the buffer as it was outside.
pub record Copied (i last : ℕ) (src dst new : ℕ → ℕ) : Type 0 where
  pub end : ℕ
  pub inside : (i ≤ end) × (end ≤ last)
  pub terminated : new end ≡ 0
  pub copied : (a : ℕ) → i ≤ a → a < end → (new a ≡ src a) × (src a ≢ 0)
  pub whole : (end ≡ last) ⊎ (src end ≡ 0)
  pub outside : (a : ℕ) → (a < i) ⊎ (last < a) → new a ≡ dst a

copy_chars-Copied : (k i : ℕ) (src dst : ℕ → ℕ) → Copied i (i + k) src dst (copy_chars k i src dst)
unfolding copy_chars
copy_chars-Copied zero i src dst = record {
  end = i;
  inside = (omega arith, omega arith);
  terminated = update_self dst i 0 i refl;
  copied = λ a le lt. absurd (omega arith);
  whole = inl (omega arith);
  outside = λ a out. update-ne dst i 0 a (omega arith);
}
copy_chars-Copied (suc k) i src dst = elim (Bool-cases (src i == 0)) [
  | inl stop ↦ rw stop (record {
    end = i;
    inside = (omega arith, omega arith);
    terminated = update-ne (update dst i 0) (i + 1) 0 i (omega arith) ∙ update_self dst i 0 i refl;
    copied = λ a le lt. absurd (omega arith);
    whole = inr (==→eq (src i) 0 stop);
    outside = λ a out.
        update-ne (update dst i 0) (i + 1) 0 a (omega arith) ∙ update-ne dst i 0 a (omega arith);
  })
  | inr goes ↦ rw goes (widen goes (copy_chars-Copied k (i + 1) src (update dst i (src i))))
]
  where
    widen :
        {new : ℕ → ℕ}
        → (src i == 0) ≡ false
        → Copied (i + 1) (i + 1 + k) src (update dst i (src i)) new
        → Copied i (i + suc k) src dst new
    widen {new} goes c = record {
      end = c.end;
      inside = (omega (arith, c.inside), omega (arith, c.inside));
      terminated = c.terminated;
      copied = λ a le lt. elim (Bool-cases (a == i)) [
        | inl here ↦
            let e = ==→eq a i here in
            subst (λ x. (new x ≡ src x) × (src x ≢ 0)) (sym e)
              (
                c.outside i (inl (omega arith)) ∙ update_self dst i (src i) i refl,
                ==→ne (src i) 0 goes,
              )
        | inr later ↦ c.copied a (omega (tests, ==→ne a i later)) lt
      ];
      whole = elim c.whole [ inl e ↦ inl (omega arith) | inr z ↦ inr z ];
      outside = λ a out. c.outside a (omega arith) ∙ update-ne dst i (src i) a (omega arith);
    }

-- safestrcpy into a buffer of n bytes, n at least 1, leaves a terminator inside the buffer, before
-- it the characters of the source, and it cuts the string only at the last byte. It writes no
-- byte outside the buffer.
pub safestrcpy-Copied : (k : ℕ) (src dst : ℕ → ℕ) → Copied 0 k src dst (safestrcpy (suc k) src dst)
unfolding safestrcpy
safestrcpy-Copied k src dst =
    subst (λ n. Copied 0 n src dst (copy_chars k 0 src dst)) (omega arith)
      (copy_chars-Copied k 0 src dst)

-- What strncpy leaves, from index i on.
pub record Padded (i n : ℕ) (t s new : ℕ → ℕ) : Type 0 where
  pub chars : (a : ℕ) → i ≤ a → a < i + n → ((j : ℕ) → i ≤ j → j < a → t j ≢ 0) → new a ≡ t a
  pub zeros : (a j : ℕ) → i ≤ j → j < a → a < i + n → t j ≡ 0 → new a ≡ 0
  pub outside : (a : ℕ) → (a < i) ⊎ (i + n ≤ a) → new a ≡ s a

pad_at :
    (n i : ℕ) (s : ℕ → ℕ) (a : ℕ)
    → (i ≤ a → a < i + n → pad n i s a ≡ 0) × ((a < i) ⊎ (i + n ≤ a) → pad n i s a ≡ s a)
unfolding pad
pad_at zero i s a = (λ le lt. absurd (omega arith), λ _. refl)
pad_at (suc n) i s a =
    let (into, out) = pad_at n (i + 1) (update s i 0) a in
    (
      λ le lt. elim (Bool-cases (a == i)) [
        | inl here ↦ out (omega tests) ∙ update_self s i 0 a (omega tests)
        | inr later ↦ into (omega (tests, ==→ne a i later)) (omega arith)
      ],
      λ far. out (omega arith) ∙ update-ne s i 0 a (omega arith),
    )

copy_pad-Padded : (n i : ℕ) (t s : ℕ → ℕ) → Padded i n t s (copy_pad n i t s)
unfolding copy_pad
copy_pad-Padded zero i t s = record {
  chars = λ a le lt _. absurd (omega arith);
  zeros = λ a j le l lt _. absurd (omega arith);
  outside = λ a _. refl;
}
copy_pad-Padded (suc n) i t s = elim (Bool-cases (t i == 0)) [
  | inl stop ↦ rw stop (stopped (==→eq (t i) 0 stop))
  | inr goes ↦ rw goes (widen (==→ne (t i) 0 goes) (copy_pad-Padded n (i + 1) t (update s i (t i))))
]
  where
    stopped : t i ≡ 0 → Padded i (suc n) t s (pad n (i + 1) (update s i (t i)))
    stopped z = record {
      chars = λ a le lt before. elim (Bool-cases (a == i)) [
        | inl here ↦
            (pad_at n (i + 1) (update s i (t i)) a).1 (inl (omega tests))
            ∙ update_self s i (t i) a (omega tests)
            ∙ ap t (sym (==→eq a i here))
        | inr later ↦ absurd (before i (omega arith) (omega (tests, ==→ne a i later)) z)
      ];
      zeros =
          λ a j le l lt _. (pad_at n (i + 1) (update s i (t i)) a).0 (omega arith) (omega arith);
      outside = λ a out.
          (pad_at n (i + 1) (update s i (t i)) a).1 (omega arith)
          ∙ update-ne s i (t i) a (omega arith);
    }

    widen :
        {new : ℕ → ℕ}
        → t i ≢ 0
        → Padded (i + 1) n t (update s i (t i)) new
        → Padded i (suc n) t s new
    widen live p = record {
      chars = λ a le lt before. elim (Bool-cases (a == i)) [
        | inl here ↦
            p.outside a (inl (omega tests))
            ∙ update_self s i (t i) a (omega tests)
            ∙ ap t (sym (==→eq a i here))
        | inr later ↦
            p.chars a (omega (tests, ==→ne a i later)) (omega arith)
              (λ j lj l. before j (omega arith) l)
      ];
      zeros = λ a j le l lt z. elim (Bool-cases (j == i)) [
        | inl here ↦ absurd (live (ap t (sym (==→eq j i here)) ∙ z))
        | inr later ↦ p.zeros a j (omega (tests, ==→ne j i later)) l (omega arith) z
      ];
      outside = λ a out. p.outside a (omega arith) ∙ update-ne s i (t i) a (omega arith);
    }

-- strncpy into a buffer of n bytes copies the characters of the source up to its end, fills the
-- rest of the buffer with zeros, and writes no byte outside the buffer.
pub strncpy-Padded : (n : ℕ) (t s : ℕ → ℕ) → Padded 0 n t s (strncpy s t n)
unfolding strncpy
strncpy-Padded n t s = copy_pad-Padded n 0 t s
