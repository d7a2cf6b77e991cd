-- ===== src/Prelude/Memory.antt =====
-- Memory, arrays and tables: a function from the index, written at one place at a time.
use Prim.Native.Nat.{ℕ}
use mathlib.Core.Path.{◌≡◌}
use mathlib.Core.Logic.{◌≢◌}
use cmpt.Prelude.Tests.{◌==◌, if◌then◌else◌, ne→==, eq→==}

module _ {ℓ} {A : Type ℓ} where
  abbrev pub update : (ℕ → A) → ℕ → A → ℕ → A
  update f i v j = if j == i then v else f j

  pub update-ne : (f : ℕ → A) (i : ℕ) (v : A) (j : ℕ) → j ≢ i → update f i v j ≡ f j
  update-ne f i v j ne = rw (ne→== j i ne)

  pub update_self : (f : ℕ → A) (i : ℕ) (v : A) (j : ℕ) → j ≡ i → update f i v j ≡ v
  update_self f i v j e = rw (eq→== j i e)
