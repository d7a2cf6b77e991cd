-- ===== src/Fs/Bitmap.antt =====
-- The free map: balloc and bfree. A loop that would run over more blocks than the super block has
-- is not reached; block numbers stay below 2 ^ 31, so the int `b` of balloc does not wrap.
pub mod Map
pub mod Alloc
pub mod Free
pub mod Taking
pub mod Examples
use Prim.Native.Nat.{bit_and, bit_or}
use cmpt.Prelude.{
  ℕ, zero, suc, ◌+◌, ◌-◌, ◌*◌, ◌/◌, ◌%◌, ◌^◌, Bool, true, false, not, ◌&&◌, Option, none, some,
  ◌==◌, ltb, if◌then◌else◌, update,
}
use cmpt.Disk.{Block}
use cmpt.Fs.{
  State, SuperBlock, Run, done, no_blocks, panic, unfinished, M, and_then, ◌>>=◌, ◌>>◌, pure, get,
  bread, log_write, readsb, bzero, bpb, bblock,
}
use cmpt.Fs.Bits.{bit}

-- data[bi/8] & (1 << (bi % 8))
abbrev pub block_bit : Block → ℕ → Bool
block_bit a bi = bit (a (bi / 8)) (bi % 8)

-- data[bi/8] |= m
abbrev pub mark_used : Block → ℕ → Block
mark_used a bi = update a (bi / 8) (bit_or (a (bi / 8)) (2 ^ (bi % 8)) % 256)

-- data[bi/8] &= ~m
abbrev pub mark_free : Block → ℕ → Block
mark_free a bi = update a (bi / 8) (bit_and (a (bi / 8)) (255 - 2 ^ (bi % 8)))

-- The inner loop of balloc, for k rounds from bi on: the first free bit of the block of b.
find_bit : ℕ → ℕ → ℕ → ℕ → Block → Option ℕ
find_bit zero bi b size a = none
find_bit (suc k) bi b size a =
    let rest = find_bit k (bi + 1) b size a in
    if ltb (b + bi) size then (if block_bit a bi then rest else some bi) else none

-- The outer loop of balloc, from b on.
balloc_from : ℕ → ℕ → M ℕ
unfolding find_bit bzero
balloc_from zero b s = unfinished
balloc_from (suc n) b s = elim (ltb b s.sb.size) [
  | false ↦ no_blocks s
  | true ↦ elim (find_bit bpb 0 b s.sb.size (s.view (bblock b s.sb))) [
    | none ↦ balloc_from n (b + bpb) s
    | some bi ↦
        (do
          log_write (bblock b s.sb) (mark_used (s.view (bblock b s.sb)) bi)
          bzero (b + bi)
          pure (b + bi))
          s
  ]
]

pub balloc : M ℕ
unfolding balloc_from
balloc s = balloc_from (suc (s.sb.size / bpb + 1)) 0 s

-- bfree behind its readsb
free_bit : ℕ → M (Unit {0})
free_bit b s =
    let bp = s.view (bblock b s.sb) in
    if block_bit bp (b % bpb) then log_write (bblock b s.sb) (mark_free bp (b % bpb)) s else panic

pub bfree : ℕ → M (Unit {0})
unfolding readsb free_bit
bfree b = do readsb; free_bit b
