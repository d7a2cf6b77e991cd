-- ===== src/Pipe/Ring.antt =====
-- The ring as a queue: the bytes between nread and nwrite, in order.
use cmpt.Prelude.{
  ℕ, zero, suc, ◌+◌, ◌-◌, ◌%◌, ◌^◌, ◌<◌, ◌≤◌, ◌≡◌, refl, ap, Bool, true, false, List, [], ◌∷◌, ◌++◌,
  arith, update, length,
}
use cmpt.Pipe.{Pipe, pipe_size, wrap, put_byte, skip_byte, is_full, is_empty, init_pipe, pipeclose}

-- `k` bytes of the ring from the counter `r` on
pub ring : (ℕ → ℕ) → ℕ → ℕ → List ℕ
ring d r zero = []
ring d r (suc k) = d (r % pipe_size) ∷ ring d (wrap (r + 1)) k

-- nwrite - nread as a `uint`
abbrev pub used : Pipe → ℕ
used p = wrap (p.nwrite + 2 ^ 32 - p.nread)

pub contents : Pipe → List ℕ
contents p = ring p.bytes p.nread (used p)

pub record IsValid (p : Pipe) : Type 0 where
  pub read_range : p.nread < 2 ^ 32
  pub write_range : p.nwrite < 2 ^ 32
  pub fits : used p ≤ pipe_size

pub length-ring : (d : ℕ → ℕ) (r k : ℕ) → length (ring d r k) ≡ k
unfolding ring
length-ring d r zero = refl
length-ring d r (suc k) = ap suc (length-ring d (wrap (r + 1)) k)

-- A byte stored behind the last one is the queue's new end.
ring-snoc :
    (d : ℕ → ℕ) (b j r k : ℕ)
    → k < pipe_size
    → j ≡ (r + k) % pipe_size
    → ring (update d j b) r (suc k) ≡ ring d r k ++ b ∷ []
unfolding ring
ring-snoc d b j r zero lt e = ground arith
ring-snoc d b j r (suc k) lt e =
    ground (arith, ring-snoc d b j (wrap (r + 1)) k (omega arith) (omega arith))

module _ {p : Pipe} (v : IsValid p) where
  pub used-put_byte : (b : ℕ) → is_full p ≡ false → used (put_byte b p) ≡ suc (used p)
  unfolding put_byte is_full
  used-put_byte b space = ground (arith, v.read_range, v.write_range, v.fits)

  pub put_byte-IsValid : (b : ℕ) → is_full p ≡ false → IsValid (put_byte b p)
  unfolding put_byte is_full
  put_byte-IsValid b space = ground (arith, v.read_range, v.write_range, v.fits)

  pub contents-put_byte :
      (b : ℕ) → is_full p ≡ false → contents (put_byte b p) ≡ contents p ++ b ∷ []
  unfolding contents put_byte is_full
  contents-put_byte b space = rw (used-put_byte b space) (
      ring-snoc p.bytes b (p.nwrite % pipe_size) p.nread (used p) (ground (arith, v.fits))
        (ground arith))

  pub skip_byte-IsValid : is_empty p ≡ false → IsValid (skip_byte p)
  unfolding skip_byte is_empty
  skip_byte-IsValid more = ground (arith, v.read_range, v.write_range, v.fits)

  pub contents-skip_byte :
      is_empty p ≡ false → contents p ≡ p.bytes (p.nread % pipe_size) ∷ contents (skip_byte p)
  unfolding contents skip_byte is_empty ring
  contents-skip_byte more =
      let e : used p ≡ suc (used (skip_byte p)) = ground (arith, v.read_range, v.write_range) in
      rw e

  pub contents-empty : is_empty p ≡ true → contents p ≡ []
  unfolding contents is_empty ring
  contents-empty none = let e : used p ≡ 0 = ground (arith, v.read_range, v.write_range) in rw e

-- Closing an end touches neither the bytes nor the counters.
module _ (writable : Bool) (p : Pipe) where
  pub pipeclose-IsValid : IsValid p → IsValid (pipeclose writable p).0
  unfolding pipeclose
  pipeclose-IsValid v = ground (arith, v.read_range, v.write_range, v.fits)

  pub contents-pipeclose : contents (pipeclose writable p).0 ≡ contents p
  unfolding contents pipeclose
  contents-pipeclose = elim writable as (λ w. contents (pipeclose w p).0 ≡ contents p) [
    | true ↦ refl
    | false ↦ refl
  ]

module _ (page : ℕ → ℕ) where
  pub init-IsValid : IsValid (init_pipe page)
  unfolding init_pipe
  init-IsValid = omega arith

  pub contents-init : contents (init_pipe page) ≡ []
  unfolding contents init_pipe ring
  contents-init = refl
