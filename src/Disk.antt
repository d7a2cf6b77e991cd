-- ===== src/Disk.antt =====
-- A disk block (BSIZE bytes) and the 32-bit words that the kernel reads in it through a cast,
-- as in `(struct logheader *) (buf->data)`: xv6-public/fs.h, xv6-public/buf.h.
use cmpt.Prelude.{
  ℕ, ◌+◌, ◌*◌, ◌/◌, ◌%◌, ◌^◌, ◌≡◌, ◌<◌, arith, refl, ◌≢◌, ne→==, ◌==◌, if◌then◌else◌,
}

abbrev pub Block : Type 0
Block = ℕ → ℕ

abbrev pub Disk : Type 0
Disk = ℕ → Block

-- byte `k` of a little-endian word
byte_of : ℕ → ℕ → ℕ
byte_of v k =
    if k == 0
    then v % 256
    else if k == 1
    then v / 256 % 256
    else if k == 2
    then v / 65536 % 256
    else v / 16777216 % 256

-- `((uint*)data)[i]`
unfoldable pub word : Block → ℕ → ℕ
word a i = a (4 * i) + 256 * a (4 * i + 1) + 65536 * a (4 * i + 2) + 16777216 * a (4 * i + 3)

-- `((uint*)data)[i] = v`
unfoldable pub set_word : Block → ℕ → ℕ → Block
unfolding byte_of
set_word a i v j = if j / 4 == i then byte_of v (j % 4) else a j

set_word_byte :
    (a : Block) (i k v r : ℕ)
    → r < 4
    → set_word a i v (4 * k + r) ≡ (if k == i then byte_of v r else a (4 * k + r))
unfolding set_word
set_word_byte a i k v r h =
    let q : (4 * k + r) / 4 ≡ k = omega arith in
    let m : (4 * k + r) % 4 ≡ r = omega arith in rw (q, m)

word-byte_of :
    (v : ℕ)
    → v < 2 ^ 32
    → byte_of v 0 + 256 * byte_of v 1 + 65536 * byte_of v 2 + 16777216 * byte_of v 3 ≡ v
unfolding byte_of
word-byte_of v h = omega arith

-- Storing a word changes that word and no other.
pub word-set_word :
    (a : Block) (i k v : ℕ)
    → v < 2 ^ 32
    → word (set_word a i v) k ≡ (if k == i then v else word a k)
unfolding word
word-set_word a i k v h = ground (
  arith,
  word-byte_of v h,
  set_word_first,
  set_word_byte a i k v 1 (omega arith),
  set_word_byte a i k v 2 (omega arith),
  set_word_byte a i k v 3 (omega arith),
)
  where
    set_word_first : set_word a i v (4 * k) ≡ (if k == i then byte_of v 0 else a (4 * k))
    set_word_first = ground (arith, set_word_byte a i k v 0 (omega arith))

-- `((ushort*)data)[i]`
unfoldable pub half : Block → ℕ → ℕ
half a i = a (2 * i) + 256 * a (2 * i + 1)

-- `((ushort*)data)[i] = v`
unfoldable pub set_half : Block → ℕ → ℕ → Block
set_half a i v j = if j / 2 == i then (if j % 2 == 0 then v % 256 else v / 256 % 256) else a j

set_half_byte :
    (a : Block) (i k v r : ℕ)
    → r < 2
    → set_half a i v (2 * k + r)
      ≡ (if k == i then (if r == 0 then v % 256 else v / 256 % 256) else a (2 * k + r))
unfolding set_half
set_half_byte a i k v r h =
    let q : (2 * k + r) / 2 ≡ k = omega arith in
    let m : (2 * k + r) % 2 ≡ r = omega arith in rw (q, m)

pub half-set_half :
    (a : Block) (i k v : ℕ)
    → v < 2 ^ 16
    → half (set_half a i v) k ≡ (if k == i then v else half a k)
unfolding half
half-set_half a i k v h = ground (arith, low, set_half_byte a i k v 1 (omega arith))
  where
    low : set_half a i v (2 * k) ≡ (if k == i then v % 256 else a (2 * k))
    low = ground (arith, set_half_byte a i k v 0 (omega arith))

-- A byte outside the half word, or the word, keeps its value.
pub set_half_other : (a : Block) (i v j : ℕ) → j / 2 ≢ i → set_half a i v j ≡ a j
unfolding set_half
set_half_other a i v j ne = rw (ne→== (j / 2) i ne)

pub set_word_other : (a : Block) (i v j : ℕ) → j / 4 ≢ i → set_word a i v j ≡ a j
unfolding set_word
set_word_other a i v j ne = rw (ne→== (j / 4) i ne)

pub word-set_half : (a : Block) (i k v : ℕ) → i / 2 ≢ k → word (set_half a i v) k ≡ word a k
unfolding word
word-set_half a i k v ne =
    rw
      (
        set_half_other a i v (4 * k) (omega arith),
        set_half_other a i v (4 * k + 1) (omega arith),
        set_half_other a i v (4 * k + 2) (omega arith),
        set_half_other a i v (4 * k + 3) (omega arith),
      )
      refl

pub half-set_word : (a : Block) (i k v : ℕ) → k / 2 ≢ i → half (set_word a i v) k ≡ half a k
unfolding half
half-set_word a i k v ne =
    rw (set_word_other a i v (2 * k) (omega arith), set_word_other a i v (2 * k + 1) (omega arith))
      refl

-- Bytes stay bytes.
pub set_word-lt : (a : Block) (i v : ℕ) → ((j : ℕ) → a j < 256) → (j : ℕ) → set_word a i v j < 256
unfolding set_word byte_of
set_word-lt a i v bytes j = ground (arith, bytes j)

pub set_half-lt : (a : Block) (i v : ℕ) → ((j : ℕ) → a j < 256) → (j : ℕ) → set_half a i v j < 256
unfolding set_half
set_half-lt a i v bytes j = ground (arith, bytes j)
