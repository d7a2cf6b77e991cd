-- ===== src/Fs/Bits.antt =====
-- One bit of a byte: `|= m`, `&= ~m` and `& m` for a mask m of one bit.
use Prim.Native.Nat.{bit_and, bit_or}
use cmpt.Prelude.{
  ℕ, zero, suc, ◌+◌, ◌-◌, ◌^◌, ◌<◌, ◌≤◌, ◌≡◌, ◌∙◌, refl, ap, arith, Bool, true, false, not, ◌&&◌,
  ◌==◌, ltb, ltb→lt, if◌then◌else◌, tests, Bool-cases, inl, inr, ==→eq, ==→ne,
}

-- the bit of x under the mask 2 ^ k
abbrev pub bit : ℕ → ℕ → Bool
bit x k = not (bit_and x (2 ^ k) == 0)

-- p at each of the n numbers from i on
holds_from : (ℕ → Bool) → ℕ → ℕ → Bool
holds_from p i zero = true
holds_from p i (suc n) = let later = holds_from p (i + 1) n in if p i then later else false

holds_from-true :
    (p : ℕ → Bool) (i n m : ℕ) → holds_from p i n ≡ true → i ≤ m → m < i + n → p m ≡ true
unfolding holds_from
holds_from-true p i zero m e le lt = absurd (omega arith)
holds_from-true p i (suc n) m e le lt = elim (Bool-cases (m == i)) [
  | inl here ↦ ap p (==→eq m i here) ∙ ground (arith, e)
  | inr further ↦
      holds_from-true p (i + 1) n m (ground (arith, e)) (omega (tests, ==→ne m i further))
        (omega arith)
]

same : Bool → Bool → Bool
same true b = b
same false b = not b

same_sound : (a b : Bool) → same a b ≡ true → a ≡ b
unfolding same
same_sound true b e = ground (arith, e)
same_sound false b e = ground (arith, e)

row : ℕ → ℕ → ℕ → Bool
unfolding same
row k j x =
    same (bit (bit_or x (2 ^ k)) j) (if j == k then true else bit x j)
    && same (bit (bit_and x (255 - 2 ^ k)) j) (if j == k then false else bit x j)
    && ltb (bit_or x (2 ^ k)) 256
    && ltb (bit_and x (255 - 2 ^ k)) 256

abbrev column : ℕ → ℕ → Bool
column k j = holds_from (row k j) 0 256

abbrev plane : ℕ → Bool
plane k = holds_from (column k) 0 8

every_row : holds_from plane 0 8 ≡ true
unfolding holds_from row
every_row = refl

row_holds : (k j x : ℕ) → k < 8 → j < 8 → x < 256 → row k j x ≡ true
row_holds k j x lk lj lx =
    let p : plane k ≡ true = holds_from-true plane 0 8 k every_row (omega arith) lk in
    let c : column k j ≡ true = holds_from-true (column k) 0 8 j p (omega arith) lj in
    holds_from-true (row k j) 0 256 x c (omega arith) lx

parts :
    (a b c d : Bool) → (a && b && c && d) ≡ true → (a ≡ true) × (b ≡ true) × (c ≡ true) × (d ≡ true)
parts a b c d e = ground (arith, e)

row_parts :
    (k j x : ℕ)
    → row k j x ≡ true
    → (bit (bit_or x (2 ^ k)) j ≡ (if j == k then true else bit x j))
      × (bit (bit_and x (255 - 2 ^ k)) j ≡ (if j == k then false else bit x j))
      × (bit_or x (2 ^ k) < 256)
      × (bit_and x (255 - 2 ^ k) < 256)
unfolding row
row_parts k j x e =
    let (a, b, c, d) = parts _ _ _ _ e in
    (
      same_sound _ _ a,
      same_sound _ _ b,
      ltb→lt (bit_or x (2 ^ k)) 256 c,
      ltb→lt (bit_and x (255 - 2 ^ k)) 256 d,
    )

pub bit-set :
    (x k j : ℕ)
    → x < 256
    → k < 8
    → j < 8
    → bit (bit_or x (2 ^ k)) j ≡ (if j == k then true else bit x j)
bit-set x k j lx lk lj = (row_parts k j x (row_holds k j x lk lj lx)).0

pub bit-clear :
    (x k j : ℕ)
    → x < 256
    → k < 8
    → j < 8
    → bit (bit_and x (255 - 2 ^ k)) j ≡ (if j == k then false else bit x j)
bit-clear x k j lx lk lj = (row_parts k j x (row_holds k j x lk lj lx)).1

pub set-lt : (x k : ℕ) → x < 256 → k < 8 → bit_or x (2 ^ k) < 256
set-lt x k lx lk = (row_parts k k x (row_holds k k x lk lk lx)).2

pub clear-lt : (x k : ℕ) → x < 256 → k < 8 → bit_and x (255 - 2 ^ k) < 256
clear-lt x k lx lk = (row_parts k k x (row_holds k k x lk lk lx)).3
