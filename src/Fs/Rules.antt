-- ===== src/Fs/Rules.antt =====
-- How a run ends: with a result, or for lack of free blocks. No other end is a good one.
use cmpt.Prelude.{◌≡◌, subst}
use cmpt.Fs.{State, Run, done, no_blocks, M, and_then}

pub data Ends {A : Type 0} (P : A → State → Type 0) (Q : State → Type 0) : Run A → Type 0 where
  ends : {a : A} {s : State} → P a s → Ends P Q (done a s)
  stops : {s : State} → Q s → Ends P Q (no_blocks s)

module _ {A : Type 0} {P : A → State → Type 0} {Q : State → Type 0} where
  pub bind :
      {B : Type 0} {P' : B → State → Type 0} {r : Run A} {k : A → M B}
      → Ends P Q r
      → ((a : A) (s : State) → P a s → Ends P' Q (k a s))
      → Ends P' Q (and_then r k)
  bind (ends p) next = next _ _ p
  bind (stops q) next = stops q

  pub mono :
      {P' : A → State → Type 0} {Q' : State → Type 0} {r : Run A}
      → Ends P Q r
      → ((a : A) (s : State) → P a s → P' a s)
      → ((s : State) → Q s → Q' s)
      → Ends P' Q' r
  mono (ends p) f g = ends (f _ _ p)
  mono (stops q) f g = stops (g _ q)

  -- What a run that returned has established.
  pub Ends-done : {r : Run A} {a : A} {t : State} → Ends P Q r → r ≡ done a t → P a t
  Ends-done {r} {a} {t} (ends {a = a₀} {s = s₀} p) e =
      let x : a₀ ≡ a = cc e in
      let y : s₀ ≡ t = cc e in subst (λ (w : A). P w t) x (subst (λ (w : State). P a₀ w) y p)
  Ends-done (stops q) e = absurd (cc e)
