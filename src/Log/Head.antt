-- ===== src/Log/Head.antt =====
-- The header block as it is written to the disk and read back.
use cmpt.Prelude.{
  ℕ, zero, suc, ◌+◌, ◌<◌, ◌≤◌, ◌^◌, ◌≡◌, refl, inl, inr, ◌∙◌, arith, update, ltb, Bool-cases, tests,
}
use cmpt.Disk.{Block, word, set_word, word-set_word}
use cmpt.Log.{State, bread, write_blocks, read_blocks, rounds, log_size, write_head}
use cmpt.Log.Rules.{Ends, mono, put, bwrite_lem, rounds_small}

-- Every block number among the first n fits a `uint`.
abbrev pub AllSmall : ℕ → (ℕ → ℕ) → Type 0
AllSmall n block = (m : ℕ) → m < n → block m < 2 ^ 32

write_blocks_below :
    (k i : ℕ) (block : ℕ → ℕ) (hb : Block) (j : ℕ)
    → AllSmall (i + k) block
    → j ≤ i
    → word (write_blocks k i block hb) j ≡ word hb j
unfolding write_blocks
write_blocks_below zero i block hb j small le = refl
write_blocks_below (suc k) i block hb j small le =
    write_blocks_below k (i + 1) block (set_word hb (i + 1) (block i)) j
      (λ m lt. small m (omega arith)) (omega arith)
    ∙ (ground (arith, word-set_word hb (i + 1) j (block i) (small i (omega arith))))

write_blocks_at :
    (k i : ℕ) (block : ℕ → ℕ) (hb : Block) (m : ℕ)
    → AllSmall (i + k) block
    → i ≤ m
    → m < i + k
    → word (write_blocks k i block hb) (m + 1) ≡ block m
unfolding write_blocks
write_blocks_at zero i block hb m small le lt = absurd (omega arith)
write_blocks_at (suc k) i block hb m small le lt = elim (Bool-cases (ltb i m)) [
  | inl above ↦
      write_blocks_at k (i + 1) block (set_word hb (i + 1) (block i)) m
        (λ j h. small j (omega arith)) (omega tests) (omega arith)
  | inr here ↦
      let e : m ≡ i = omega tests in
      write_blocks_below k (i + 1) block (set_word hb (i + 1) (block i)) (m + 1)
        (λ j h. small j (omega arith)) (omega arith)
      ∙ (ground (arith, e, word-set_word hb (i + 1) (m + 1) (block i) (small i (omega arith))))
]

read_blocks_below :
    (k i : ℕ) (hb : Block) (block : ℕ → ℕ) (m : ℕ) → m < i → read_blocks k i hb block m ≡ block m
unfolding read_blocks
read_blocks_below zero i hb block m lt = refl
read_blocks_below (suc k) i hb block m lt =
    read_blocks_below k (i + 1) hb (update block i (word hb (i + 1))) m (omega arith)
    ∙ (ground arith)

pub read_blocks_at :
    (k i : ℕ) (hb : Block) (block : ℕ → ℕ) (m : ℕ)
    → i ≤ m
    → m < i + k
    → read_blocks k i hb block m ≡ word hb (m + 1)
unfolding read_blocks
read_blocks_at zero i hb block m le lt = absurd (omega arith)
read_blocks_at (suc k) i hb block m le lt = elim (Bool-cases (ltb i m)) [
  | inl above ↦
      read_blocks_at k (i + 1) hb (update block i (word hb (i + 1))) m (omega tests) (omega arith)
  | inr here ↦
      let e : m ≡ i = omega tests in
      read_blocks_below k (i + 1) hb (update block i (word hb (i + 1))) m (omega arith)
      ∙ (ground (arith, e))
]

-- A header block that says `n` and the first `n` entries of `block`.
pub record Says (hb : Block) (n : ℕ) (block : ℕ → ℕ) : Type 0 where
  pub count : word hb 0 ≡ n
  pub entry : (m : ℕ) → m < n → word hb (m + 1) ≡ block m

-- what write_head puts on the disk
pub head_block-Says :
    (n : ℕ) (block : ℕ → ℕ) (hb : Block)
    → n ≤ log_size
    → AllSmall n block
    → Says (write_blocks (rounds n) 0 block (set_word hb 0 n)) n block
head_block-Says n block hb le small = rw (rounds_small n le) (record {
  count =
      write_blocks_below n 0 block (set_word hb 0 n) 0 small' (omega arith)
      ∙ (ground (arith, word-set_word hb 0 0 n (omega arith)));
  entry = λ m lt. write_blocks_at n 0 block (set_word hb 0 n) m small' (omega arith) (omega arith);
})
  where
    small' : AllSmall (0 + n) block
    small' m lt = small m (omega arith)

-- The effect of write_head: one disk write, of a header block that says what is in memory.
pub record HeadWritten (s t : State) : Type 0 where
  pub hb : Block
  pub says : Says hb s.log.lh.n s.log.lh.block
  pub state : t ≡ put s s.log.start hb t.power

pub write_head_lem :
    (s : State)
    → s.log.lh.n ≤ log_size
    → AllSmall s.log.lh.n s.log.lh.block
    → Ends
        (λ _ t. HeadWritten s t × (suc t.power ≡ s.power))
        (λ d. (d ≡ s.disk) × (s.power ≡ 0))
        (write_head s)
unfolding write_head bread
write_head_lem s le small =
    mono (bwrite_lem s.log.start _ s)
      (λ _ t (e, cost). (
        record { hb = _; says = head_block-Says s.log.lh.n s.log.lh.block _ le small; state = e },
        cost,
      ))
      (λ d p. p)
