-- ===== src/Fs/Bitmap/Map.antt =====
-- The free map as a predicate on block numbers.
use Prim.Native.Nat.{bit_or}
use cmpt.Prelude.{
  ℕ, ◌/◌, ◌%◌, ◌^◌, ◌<◌, ◌≡◌, ◌≢◌, refl, ◌∙◌, sym, ap, arith, Bool, true, false, ◌==◌,
  if◌then◌else◌, update, Bool-cases, inl, inr, ==→eq, ==→ne, eq→==, ne→==, tests,
}
use cmpt.Disk.{Block, Disk}
use cmpt.Fs.{SuperBlock, bpb, bblock}
use cmpt.Fs.Bits.{bit, bit-set, bit-clear, set-lt}
use cmpt.Fs.Bitmap.{block_bit, mark_used, mark_free}

-- The map has block b as used.
abbrev pub used : Disk → SuperBlock → ℕ → Bool
used v sb b = block_bit (v (bblock b sb)) (b % bpb)

-- What the super block and the map promise: bytes are bytes, and the blocks of the map are used.
pub record Mapped (v : Disk) (sb : SuperBlock) : Type 0 where
  pub bytes : (b o : ℕ) → v b o < 256
  pub map_inside : (c : ℕ) → c < sb.size → bblock c sb < sb.size
  pub map_used : (c : ℕ) → c < sb.size → used v sb (bblock c sb) ≡ true

-- A change of one bit of one byte of a block.
block_bit-update :
    (a : Block) (i j x : ℕ) (value : Bool)
    → ((k : ℕ) → k < 8 → bit x k ≡ (if k == i % 8 then value else bit (a (i / 8)) k))
    → block_bit (update a (i / 8) x) j ≡ (if j == i then value else block_bit a j)
block_bit-update a i j x value law = elim (Bool-cases (j / 8 == i / 8)) [
  | inl same ↦ rw same (
      law (j % 8) (omega arith) ∙ elim (Bool-cases (j == i)) [
        | inl e ↦ rw (e, eq→== (j % 8) (i % 8) (ap (λ n. n % 8) (==→eq j i e))) refl
        | inr e ↦
            rw (e, ne→== (j % 8) (i % 8) (omega (tests, ==→ne j i e)))
              (ap (λ n. bit (a n) (j % 8)) (sym (==→eq (j / 8) (i / 8) same)))
      ])
  | inr other ↦
      let ne : j ≢ i = λ e. ==→ne (j / 8) (i / 8) other (ap (λ n. n / 8) e) in
      rw (other, ne→== j i ne) refl
]

module _ (v : Disk) (sb : SuperBlock) (b : ℕ) where
  -- A change of the bit of b in its block of the map.
  used-update :
      (a : Block) (value : Bool)
      → ((j : ℕ) → block_bit a j ≡ (if j == b % bpb then value else block_bit (v (bblock b sb)) j))
      → (c : ℕ) → used (update v (bblock b sb) a) sb c ≡ (if c == b then value else used v sb c)
  used-update a value law c = elim (Bool-cases (bblock c sb == bblock b sb)) [
    | inl same ↦
        let q : c / bpb ≡ b / bpb = omega (tests, ==→eq (bblock c sb) (bblock b sb) same) in
        rw same (
          law (c % bpb) ∙ elim (Bool-cases (c == b)) [
            | inl e ↦ rw (e, eq→== (c % bpb) (b % bpb) (ap (λ n. n % bpb) (==→eq c b e))) refl
            | inr e ↦
                rw (e, ne→== (c % bpb) (b % bpb) (omega (tests, ==→ne c b e)))
                  (ap (λ n. block_bit (v n) (c % bpb))
                    (sym (==→eq (bblock c sb) (bblock b sb) same)))
          ])
    | inr other ↦
        let ne : c ≢ b = λ e. ==→ne (bblock c sb) (bblock b sb) other (ap (λ n. bblock n sb) e) in
        rw (other, ne→== c b ne) refl
  ]

  abbrev x : ℕ
  x = v (bblock b sb) (b % bpb / 8)

  abbrev i : ℕ
  i = b % bpb % 8

  pub used-mark_used :
      ((o : ℕ) → v (bblock b sb) o < 256)
      → (c : ℕ)
      → used (update v (bblock b sb) (mark_used (v (bblock b sb)) (b % bpb))) sb c
        ≡ (if c == b then true else used v sb c)
  used-mark_used bytes = used-update (mark_used (v (bblock b sb)) (b % bpb)) true (λ j.
      block_bit-update (v (bblock b sb)) (b % bpb) j _ true (λ k lt.
        let small : bit_or x (2 ^ i) % 256 ≡ bit_or x (2 ^ i) =
          omega (arith, set-lt x i (bytes (b % bpb / 8)) (omega arith)) in
        rw small (bit-set x i k (bytes (b % bpb / 8)) (omega arith) lt)))

  pub used-mark_free :
      ((o : ℕ) → v (bblock b sb) o < 256)
      → (c : ℕ)
      → used (update v (bblock b sb) (mark_free (v (bblock b sb)) (b % bpb))) sb c
        ≡ (if c == b then false else used v sb c)
  used-mark_free bytes = used-update (mark_free (v (bblock b sb)) (b % bpb)) false (λ j.
      block_bit-update (v (bblock b sb)) (b % bpb) j _ false
        (λ k lt. bit-clear x i k (bytes (b % bpb / 8)) (omega arith) lt))
