-- ===== src/Fs/Dinode/Layout.antt =====
-- The fields of a struct dinode do not overlap, nor do those of two of them.
use cmpt.Prelude.{
  ℕ, zero, suc, ◌+◌, ◌*◌, ◌/◌, ◌%◌, ◌^◌, ◌<◌, ◌≤◌, ◌≡◌, ◌≢◌, refl, ◌∙◌, sym, ap, arith, ◌==◌,
  if◌then◌else◌, Bool-cases, inl, inr, ◌⊎◌, ==→eq, ==→ne, eq→==, ne→==, tests,
}
use cmpt.Disk.{
  Block, word, set_word, half, set_half, word-set_word, half-set_half, word-set_half, half-set_word,
  set_word-lt, set_half-lt,
}
use cmpt.Fs.{Inode, ndirect}
use cmpt.Fs.Dinode.{put_addrs, write_dinode}

-- What is in the k-th struct dinode of a block are the fields of an inode.
pub record Holds (k : ℕ) (a : Block) (i : Inode) : Type 0 where
  pub type : half a (k * 32) ≡ i.type
  pub major : half a (k * 32 + 1) ≡ i.major
  pub minor : half a (k * 32 + 2) ≡ i.minor
  pub nlink : half a (k * 32 + 3) ≡ i.nlink
  pub size : word a (k * 16 + 2) ≡ i.size
  pub addrs : (j : ℕ) → j ≤ ndirect → word a (k * 16 + 3 + j) ≡ i.addrs j

-- Each field fits its width.
pub record Fits (i : Inode) : Type 0 where
  pub type : i.type < 2 ^ 16
  pub major : i.major < 2 ^ 16
  pub minor : i.minor < 2 ^ 16
  pub nlink : i.nlink < 2 ^ 16
  pub size : i.size < 2 ^ 32
  pub addrs : (j : ℕ) → j ≤ ndirect → i.addrs j < 2 ^ 32

word-put_addrs_out :
    (n j base w : ℕ) (addrs : ℕ → ℕ) (a : Block)
    → ((m : ℕ) → m < j + n → addrs m < 2 ^ 32)
    → (w < base + j) ⊎ (base + j + n ≤ w)
    → word (put_addrs n j base addrs a) w ≡ word a w
unfolding put_addrs
word-put_addrs_out zero j base w addrs a small out = refl
word-put_addrs_out (suc n) j base w addrs a small out =
    word-put_addrs_out n (j + 1) base w addrs (set_word a (base + j) (addrs j))
      (λ m l. small m (omega arith)) (omega arith)
    ∙ word-set_word a (base + j) w (addrs j) (small j (omega arith))
    ∙ rw (ne→== w (base + j) (omega arith)) refl

word-put_addrs_in :
    (n j base m : ℕ) (addrs : ℕ → ℕ) (a : Block)
    → ((m : ℕ) → m < j + n → addrs m < 2 ^ 32)
    → j ≤ m
    → m < j + n
    → word (put_addrs n j base addrs a) (base + m) ≡ addrs m
unfolding put_addrs
word-put_addrs_in zero j base m addrs a small le lt = absurd (omega arith)
word-put_addrs_in (suc n) j base m addrs a small le lt = elim (Bool-cases (m == j)) [
  | inl e ↦
      let q : m ≡ j = ==→eq m j e in
      word-put_addrs_out n (j + 1) base (base + m) addrs (set_word a (base + j) (addrs j))
        (λ m l. small m (omega arith)) (inl (omega arith))
      ∙ word-set_word a (base + j) (base + m) (addrs j) (small j (omega arith))
      ∙ rw (eq→== (base + m) (base + j) (omega arith)) (ap addrs (sym q))
  | inr e ↦
      word-put_addrs_in n (j + 1) base m addrs (set_word a (base + j) (addrs j))
        (λ m l. small m (omega arith)) (omega (tests, ==→ne m j e)) (omega arith)
]

half-put_addrs :
    (n j base h : ℕ) (addrs : ℕ → ℕ) (a : Block)
    → (h / 2 < base + j) ⊎ (base + j + n ≤ h / 2)
    → half (put_addrs n j base addrs a) h ≡ half a h
unfolding put_addrs
half-put_addrs zero j base h addrs a out = refl
half-put_addrs (suc n) j base h addrs a out =
    half-put_addrs n (j + 1) base h addrs (set_word a (base + j) (addrs j)) (omega arith)
    ∙ half-set_word a (base + j) h (addrs j) (omega arith)

-- the four half words of a dinode, from half word h on
halves : ℕ → Inode → Block → Block
halves h i a =
    set_half (set_half (set_half (set_half a h i.type) (h + 1) i.major) (h + 2) i.minor) (h + 3)
      i.nlink

half-halves :
    (h w : ℕ) (i : Inode) (a : Block)
    → Fits i
    → half (halves h i a) w ≡ (
        if w == h + 3
        then i.nlink
        else if w == h + 2
        then i.minor
        else if w == h + 1
        then i.major
        else if w == h
        then i.type
        else half a w)
unfolding halves
half-halves h w i a f =
    let a₁ = set_half a h i.type in
    let a₂ = set_half a₁ (h + 1) i.major in
    let a₃ = set_half a₂ (h + 2) i.minor in
    half-set_half a₃ (h + 3) w i.nlink f.nlink
    ∙ rw
        (
          half-set_half a₂ (h + 2) w i.minor f.minor,
          half-set_half a₁ (h + 1) w i.major f.major,
          half-set_half a h w i.type f.type,
        )
        refl

word-halves :
    (h w : ℕ) (i : Inode) (a : Block)
    → (w < h / 2) ⊎ (h / 2 + 2 ≤ w)
    → h % 2 ≡ 0
    → word (halves h i a) w ≡ word a w
unfolding halves
word-halves h w i a out even =
    let a₁ = set_half a h i.type in
    let a₂ = set_half a₁ (h + 1) i.major in
    let a₃ = set_half a₂ (h + 2) i.minor in
    word-set_half a₃ (h + 3) w i.nlink (omega arith)
    ∙ word-set_half a₂ (h + 2) w i.minor (omega arith)
    ∙ word-set_half a₁ (h + 1) w i.major (omega arith)
    ∙ word-set_half a h w i.type (omega arith)

module _ (k : ℕ) (i : Inode) (a : Block) (f : Fits i) where
  abbrev base : ℕ
  base = k * 16 + 3

  abbrev with_size : Block
  with_size = set_word (halves (k * 32) i a) (k * 16 + 2) i.size

  small : (m : ℕ) → m < 0 + (ndirect + 1) → i.addrs m < 2 ^ 32
  small m lt = f.addrs m (omega arith)

  field :
      (w : ℕ)
      → (w / 2 < k * 16 + 2) ⊎ (k * 16 + 16 ≤ w / 2)
      → half (write_dinode k i a) w ≡ half (halves (k * 32) i a) w
  unfolding write_dinode halves
  field w out =
      half-put_addrs (ndirect + 1) 0 base w i.addrs with_size (omega arith)
      ∙ half-set_word (halves (k * 32) i a) (k * 16 + 2) w i.size (omega arith)

  -- Writing an inode to its place makes the place hold its fields.
  pub write_dinode-Holds : Holds k (write_dinode k i a) i
  unfolding write_dinode halves
  write_dinode-Holds = record {
    type = field (k * 32) (omega arith) ∙ half-halves (k * 32) (k * 32) i a f ∙ ground arith;
    major =
        field (k * 32 + 1) (omega arith) ∙ half-halves (k * 32) (k * 32 + 1) i a f ∙ ground arith;
    minor =
        field (k * 32 + 2) (omega arith) ∙ half-halves (k * 32) (k * 32 + 2) i a f ∙ ground arith;
    nlink =
        field (k * 32 + 3) (omega arith) ∙ half-halves (k * 32) (k * 32 + 3) i a f ∙ ground arith;
    size =
        word-put_addrs_out (ndirect + 1) 0 base (k * 16 + 2) i.addrs with_size small (omega arith)
        ∙ word-set_word (halves (k * 32) i a) (k * 16 + 2) (k * 16 + 2) i.size f.size
        ∙ rw (eq→== (k * 16 + 2) (k * 16 + 2) refl) refl;
    addrs = λ j le.
        word-put_addrs_in (ndirect + 1) 0 base j i.addrs with_size small (omega arith)
          (omega arith);
  }

  -- The other places of the block hold what they held.
  pub write_dinode_other :
      (m : ℕ) (i' : Inode) → m ≢ k → Holds m a i' → Holds m (write_dinode k i a) i'
  unfolding write_dinode halves
  write_dinode_other m i' ne old = record {
    type = other (m * 32) (omega arith) ∙ old.type;
    major = other (m * 32 + 1) (omega arith) ∙ old.major;
    minor = other (m * 32 + 2) (omega arith) ∙ old.minor;
    nlink = other (m * 32 + 3) (omega arith) ∙ old.nlink;
    size = far (m * 16 + 2) (omega arith) ∙ old.size;
    addrs = λ j le. far (m * 16 + 3 + j) (omega arith) ∙ old.addrs j le;
  }
    where
      other : (w : ℕ) → (w < k * 32) ⊎ (k * 32 + 32 ≤ w) → half (write_dinode k i a) w ≡ half a w
      other w out = field w (omega arith) ∙ half-halves (k * 32) w i a f ∙ ground arith

      far : (w : ℕ) → (w < k * 16) ⊎ (k * 16 + 16 ≤ w) → word (write_dinode k i a) w ≡ word a w
      far w out =
          word-put_addrs_out (ndirect + 1) 0 base w i.addrs with_size small (omega arith)
          ∙ word-set_word (halves (k * 32) i a) (k * 16 + 2) w i.size f.size
          ∙ rw (ne→== w (k * 16 + 2) (omega arith))
              (word-halves (k * 32) w i a (omega arith) (omega arith))

put_addrs-lt :
    (n j w : ℕ) (addrs : ℕ → ℕ) (a : Block)
    → ((o : ℕ) → a o < 256)
    → (o : ℕ) → put_addrs n j w addrs a o < 256
unfolding put_addrs
put_addrs-lt zero j w addrs a bytes = bytes
put_addrs-lt (suc n) j w addrs a bytes =
    put_addrs-lt n (j + 1) w addrs (set_word a (w + j) (addrs j))
      (set_word-lt a (w + j) (addrs j) bytes)

-- Bytes stay bytes.
pub write_dinode-lt :
    (k : ℕ) (i : Inode) (a : Block) → ((o : ℕ) → a o < 256) → (o : ℕ) → write_dinode k i a o < 256
unfolding write_dinode
write_dinode-lt k i a bytes = put_addrs-lt (ndirect + 1) 0 (k * 16 + 3) i.addrs _ (
    set_word-lt _ (k * 16 + 2) i.size (
      set_half-lt _ (k * 32 + 3) i.nlink (
        set_half-lt _ (k * 32 + 2) i.minor
          (set_half-lt _ (k * 32 + 1) i.major (set_half-lt a (k * 32) i.type bytes)))))
