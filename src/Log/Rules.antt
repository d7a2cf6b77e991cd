-- ===== src/Log/Rules.antt =====
-- How a run of the log ends: with a state, or by a power failure that leaves a disk. Neither `panic`
-- nor `underflow` is an end.
use cmpt.Prelude.{ℕ, zero, suc, ◌+◌, ◌<◌, ◌≡◌, refl, subst, none, arith, update, ◌≤◌}
use cmpt.Disk.{Block, Disk}
use cmpt.Log.{State, Run, done, crashed, M, and_then, bwrite, for_from, rounds, log_size}

pub data Ends {A : Type 0} (P : A → State → Type 0) (Q : Disk → Type 0) : Run A → Type 0 where
  ends : {a : A} {s : State} → P a s → Ends P Q (done a s)
  stops : {d : Disk} → Q d → Ends P Q (crashed d)

module _ {A : Type 0} {P : A → State → Type 0} {Q : Disk → Type 0} where
  pub bind :
      {B : Type 0} {P' : B → State → Type 0} {r : Run A} {k : A → M B}
      → Ends P Q r
      → ((a : A) (s : State) → P a s → Ends P' Q (k a s))
      → Ends P' Q (and_then r k)
  bind (ends p) next = next _ _ p
  bind (stops q) next = stops q

  pub mono :
      {P' : A → State → Type 0} {Q' : Disk → Type 0} {r : Run A}
      → Ends P Q r
      → ((a : A) (s : State) → P a s → P' a s)
      → ((d : Disk) → Q d → Q' d)
      → Ends P' Q' r
  mono (ends p) f g = ends (f _ _ p)
  mono (stops q) f g = stops (g _ q)

-- the state after `bwrite b a`, with the power `k` left
abbrev pub put : State → ℕ → Block → ℕ → State
put s b a k = record s { disk = update s.disk b a; dirty = update s.dirty b none; power = k }

module _ (b : ℕ) (a : Block) where
  bwrite_at :
      (n : ℕ) (s : State)
      → s.power ≡ n
      → Ends
          (λ _ t. (t ≡ put s b a t.power) × (suc t.power ≡ s.power))
          (λ d. (d ≡ s.disk) × (s.power ≡ 0))
          (bwrite b a s)
  unfolding bwrite
  bwrite_at zero s e = rw (e, bwrite) (stops (refl, refl))
  bwrite_at (suc k) s e = rw (e, bwrite) (ends (refl, refl))

  -- One disk write: it happens and costs one unit of power, or there is none left.
  pub bwrite_lem :
      (s : State)
      → Ends
          (λ _ t. (t ≡ put s b a t.power) × (suc t.power ≡ s.power))
          (λ d. (d ≡ s.disk) × (s.power ≡ 0))
          (bwrite b a s)
  bwrite_lem s = bwrite_at s.power s refl

-- A loop of `k` rounds with one disk write each: it completes with that much power less, or stops
-- for lack of it.
pub for_from_inv :
    (Inv : ℕ → State → Type 0) (Q : Disk → Type 0) (body : ℕ → M (Unit {0})) (last : ℕ)
    → ((i : ℕ) (s : State)
        → i < last
        → Inv i s
        → Ends
            (λ _ t. Inv (i + 1) t × (suc t.power ≡ s.power))
            (λ d. Q d × (s.power ≡ 0))
            (body i s))
    → (k i : ℕ) (s : State) → i + k ≡ last
    → Inv i s
    → Ends
        (λ _ t. Inv last t × (t.power + k ≡ s.power))
        (λ d. Q d × (s.power < k))
        (for_from k i body s)
unfolding for_from
for_from_inv Inv Q body last keep zero i s e h =
    let e' : i ≡ last = omega arith in ends (rw (← e') h, omega arith)
for_from_inv Inv Q body last keep (suc k) i s e h =
    bind (mono (keep i s (omega arith) h) (λ _ t p. p) (λ d (q, out). (q, omega arith)))
      λ _ t (h', cost).
        mono (for_from_inv Inv Q body last keep k (i + 1) t (omega arith) h')
          (λ _ u (h'', cost'). (h'', omega arith)) (λ d (q, out). (q, omega arith))

pub rounds_small : (n : ℕ) → n ≤ log_size → rounds n ≡ n
unfolding rounds
rounds_small n h = ground arith

-- A run that cannot stop completes.
pub Ends-done :
    {A : Type 0} {P : A → State → Type 0} {Q : Disk → Type 0} {r : Run A}
    → Ends P Q r
    → ((d : Disk) → ¬ (Q d))
    → (a : A) × (s : State) × (r ≡ done a s) × P a s
Ends-done (ends p) never = (_, _, refl, p)
Ends-done (stops q) never = absurd (never _ q)

-- What is known of the end that a run has.
module _ {P : Unit {0} → State → Type 0} {Q : Disk → Type 0} where
  pub ends-crashed : {r : Run (Unit {0})} {d : Disk} → Ends P Q r → r ≡ crashed d → Q d
  ends-crashed (ends p) e = cc
  ends-crashed (stops q) e = subst Q (cc) q

  pub ends-done : {r : Run (Unit {0})} {u : State} → Ends P Q r → r ≡ done tt u → P tt u
  ends-done (ends p) e = subst (P tt) (cc) p
  ends-done (stops q) e = cc
