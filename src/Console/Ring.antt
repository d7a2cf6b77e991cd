-- ===== src/Console/Ring.antt =====
-- The keyboard's buffer as two lists: what is ready to be read, and the line that is being edited.
use cmpt.Prelude.{
  ℕ, zero, suc, ◌+◌, ◌-◌, ◌%◌, ◌^◌, ◌<◌, ◌≤◌, ◌≡◌, ◌≢◌, refl, ap, subst, List, [], ◌∷◌, ◌++◌, arith,
  update, length, update-ne,
}
use cmpt.Console.{Input, input_buf, wrap, newline}

-- `k` characters of the buffer from the counter `r` on
unfoldable pub keys : (ℕ → ℕ) → ℕ → ℕ → List ℕ
keys d r zero = []
keys d r (suc k) = d (r % input_buf) ∷ keys d (wrap (r + 1)) k

-- w - r and e - w as a `uint`
abbrev pub ready_count : Input → ℕ
ready_count s = wrap (s.w + 2 ^ 32 - s.r)

abbrev pub line_count : Input → ℕ
line_count s = wrap (s.e + 2 ^ 32 - s.w)

unfoldable pub ready : Input → List ℕ
ready s = keys s.buf s.r (ready_count s)

unfoldable pub line : Input → List ℕ
line s = keys s.buf s.w (line_count s)

-- The counters are words, the two parts fit into the buffer, and the line holds no newline.
pub record IsValid (s : Input) : Type 0 where
  pub r_range : s.r < 2 ^ 32
  pub w_range : s.w < 2 ^ 32
  pub e_range : s.e < 2 ^ 32
  pub fits : ready_count s + line_count s ≤ input_buf
  pub unbroken : (i : ℕ) → i < line_count s → s.buf (wrap (s.w + i) % input_buf) ≢ newline

pub length-keys : (d : ℕ → ℕ) (r k : ℕ) → length (keys d r k) ≡ k
unfolding keys
length-keys d r zero = refl
length-keys d r (suc k) = ap suc (length-keys d (wrap (r + 1)) k)

-- The last of the characters, and the ones before it
pub keys-snoc :
    (d : ℕ → ℕ) (r k : ℕ) → keys d r (suc k) ≡ keys d r k ++ d (wrap (r + k) % input_buf) ∷ []
unfolding keys
keys-snoc d r zero = ground arith
keys-snoc d r (suc k) = ground (arith, keys-snoc d (wrap (r + 1)) k)

-- A character stored outside of those read
pub keys-update :
    (d : ℕ → ℕ) (c j r k : ℕ)
    → ((i : ℕ) → i < k → wrap (r + i) % input_buf ≢ j)
    → keys (update d j c) r k ≡ keys d r k
unfolding keys
keys-update d c j r zero out = refl
keys-update d c j r (suc k) out =
    let ne : r % input_buf ≢ j = λ e. out 0 (omega arith) (omega (arith, e)) in
    rw (update-ne d j c (r % input_buf) ne) (
      ap (λ l. d (r % input_buf) ∷ l)
        (keys-update d c j (wrap (r + 1)) k
          (λ i lt. subst (λ n. n % input_buf ≢ j) (omega arith) (out (suc i) (omega arith)))))

keys-wrap : (d : ℕ → ℕ) (r k : ℕ) → keys d (wrap r) k ≡ keys d r k
unfolding keys
keys-wrap d r zero = refl
keys-wrap d r (suc k) =
    let e : wrap r % input_buf ≡ r % input_buf = omega arith in
    let f : wrap (wrap r + 1) ≡ wrap (r + 1) = omega arith in rw (e, f) refl

-- The two parts follow each other.
pub keys-add : (d : ℕ → ℕ) (r j k : ℕ) → keys d r (j + k) ≡ keys d r j ++ keys d (wrap (r + j)) k
unfolding keys
keys-add d r zero k = ground (arith, keys-wrap d r k)
keys-add d r (suc j) k =
    let e : wrap (wrap (r + 1) + j) ≡ wrap (r + suc j) = omega arith in
    let q : suc j + k ≡ suc (j + k) = omega arith in
    rw q (
      ap (λ l. d (r % input_buf) ∷ l)
        (subst (λ n. keys d (wrap (r + 1)) (j + k) ≡ keys d (wrap (r + 1)) j ++ keys d n k) e
          (keys-add d (wrap (r + 1)) j k)))
