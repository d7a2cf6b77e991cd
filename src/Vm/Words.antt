-- ===== src/Vm/Words.antt =====
-- Words of memory, and the `|` of a page's address and flags.
use Prim.Native.Nat.{digits, max, bit_or, bit_or-bitwise}
use cmpt.Prelude.{
  ℕ, zero, suc, ◌+◌, ◌-◌, ◌*◌, ◌/◌, ◌%◌, ◌<◌, ◌≤◌, ◌≡◌, ◌≢◌, ◌⊎◌, inl, inr, refl, ◌∙◌, arith,
  Bool-cases, ltb, tests,
}
use cmpt.Kalloc.{Memory, load, store, fill, page_size}

-- a and f have no digit 1 in the same place, and f has k digits.
abbrev pub Disjoint : ℕ → ℕ → ℕ → Type 0
Disjoint zero a f = f ≡ 0
Disjoint (suc k) a f = (a % 2 + f % 2 ≤ 1) × Disjoint k (a / 2) (f / 2)

digits-add : (n k a f : ℕ) → a ≤ n → Disjoint k a f → digits (λ b. b) max n a f ≡ a + f
digits-add zero k a f le d = omega arith
digits-add (suc n) k zero f le d = omega arith
digits-add (suc n) zero (suc a) f le d =
    omega (arith, digits-add n zero (suc a / 2) (f / 2) (omega arith) (omega arith))
digits-add (suc n) (suc k) (suc a) f le (one, d) =
    omega (arith, one, digits-add n k (suc a / 2) (f / 2) (omega arith) d)

pub bit_or-add : (k a f : ℕ) → Disjoint k a f → bit_or a f ≡ a + f
bit_or-add k a f d = bit_or-bitwise a f ∙ digits-add a k a f (omega arith) d

-- `| 1` sets the lowest digit.
pub bit_or_one : (y : ℕ) → bit_or y 1 ≡ y + (1 - y % 2)
bit_or_one y = bit_or-bitwise y 1 ∙ lowest y
  where
    lowest : (a : ℕ) → digits (λ b. b) max a a 1 ≡ a + (1 - a % 2)
    lowest zero = omega arith
    lowest (suc a) = omega (arith, digits-add a 0 (suc a / 2) 0 (omega arith) refl)

-- A store changes its four bytes and no others.
pub store_other : (mem : Memory) (v x a : ℕ) → (a < v) ⊎ (v + 4 ≤ a) → store mem v x a ≡ mem a
unfolding store
store_other mem v x a (inl lt) = ground (arith, lt)
store_other mem v x a (inr le) = ground (arith, le)

pub load-store_other :
    (mem : Memory) (v x w : ℕ) → v % 4 ≡ 0 → w % 4 ≡ 0 → w ≢ v → load (store mem v x) w ≡ load mem w
unfolding load
load-store_other mem v x w av aw ne = elim (Bool-cases (ltb w v)) [
  | inl below ↦
      rw
        (
          store_other mem v x w (inl (omega tests)),
          store_other mem v x (w + 1) (inl (omega tests)),
          store_other mem v x (w + 2) (inl (omega tests)),
          store_other mem v x (w + 3) (inl (omega tests)),
        )
        refl
  | inr above ↦
      rw
        (
          store_other mem v x w (inr (omega tests)),
          store_other mem v x (w + 1) (inr (omega tests)),
          store_other mem v x (w + 2) (inr (omega tests)),
          store_other mem v x (w + 3) (inr (omega tests)),
        )
        refl
]

-- memset of a page with zeros, at a word in it
pub load-fill_in :
    (mem : Memory) (v i : ℕ) → i < 1024 → load (fill mem v 0 page_size) (v + 4 * i) ≡ 0
unfolding load fill
load-fill_in mem v i lt = ground arith
