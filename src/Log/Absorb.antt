-- ===== src/Log/Absorb.antt =====
-- log_write: a block joins the transaction once, and its buffer is pinned.
use cmpt.Prelude.{
  ℕ, zero, suc, ◌+◌, ◌-◌, ◌<◌, ◌≤◌, ◌^◌, ◌≡◌, ◌≢◌, ◌⊎◌, inl, inr, refl, ◌∙◌, sym, ap, arith, false,
  Bool-cases, update, update-ne, update_self, some, ltb, leb, ◌==◌, if◌then◌else◌, ==→eq,
}
use cmpt.Disk.{Block}
use cmpt.Log.{State, done, view, find_block, log_write, log_size}
use cmpt.Log.Recover.{Outside, Unlisted, Fits}
use cmpt.Log.Commit.{Ready}

-- Where the search of log_write ends.
abbrev Found : ℕ → (ℕ → ℕ) → ℕ → ℕ → Type 0
Found n block b i = ((i < n) × (block i ≡ b)) ⊎ ((i ≡ n) × Unlisted n block b)

find_block-Found :
    (k i n : ℕ) (block : ℕ → ℕ) (b : ℕ)
    → i + k ≡ n
    → ((j : ℕ) → j < i → b ≢ block j)
    → Found n block b (find_block k i block b)
unfolding find_block
find_block-Found zero i n block b e seen = inr (omega arith, λ j lt. seen j (omega arith))
find_block-Found (suc k) i n block b e seen = elim (Bool-cases (block i == b)) [
  | inl here ↦ rw here (inl (omega arith, ==→eq _ _ here))
  | inr other ↦ rw other (
      find_block-Found k (i + 1) n block b (omega arith) λ j lt q. elim (Bool-cases (j == i)) [
        | inl same ↦ ground arith
        | inr below ↦ seen j (ground arith) q
      ])
]

module _ {s : State} (ready : Ready s) (b : ℕ) (a : Block) where
  slot : ℕ
  slot = find_block s.log.lh.n 0 s.log.lh.block b

  slot-Found : Found s.log.lh.n s.log.lh.block b slot
  unfolding slot
  slot-Found =
      find_block-Found s.log.lh.n 0 s.log.lh.n s.log.lh.block b (omega arith)
        λ j lt. absurd (omega arith)

  count : ℕ
  count = if slot == s.log.lh.n then s.log.lh.n + 1 else s.log.lh.n

  after : State
  after = record s {
    dirty = update s.dirty b (some a);
    log = record s.log { lh = record { n = count; block = update s.log.lh.block slot b } };
  }

  -- The block is in the transaction already, or it is added at the end.
  added :
      ((slot < s.log.lh.n) × (s.log.lh.block slot ≡ b) × (count ≡ s.log.lh.n))
      ⊎ ((slot ≡ s.log.lh.n) × Unlisted s.log.lh.n s.log.lh.block b × (count ≡ s.log.lh.n + 1))
  unfolding count
  added = elim slot-Found [
    | inl (lt, e) ↦ inl (lt, e, ground arith)
    | inr (e, new) ↦ inr (e, new, ground arith)
  ]

  log_write_runs :
      s.log.lh.n < log_size
      → s.log.lh.n + 1 < s.log.size
      → 0 < s.log.outstanding
      → log_write b a s ≡ done tt after
  unfolding log_write after count slot
  log_write_runs few space open_op =
      let t₁ : leb log_size s.log.lh.n ≡ false = ground arith in
      let t₂ : leb (s.log.size - 1) s.log.lh.n ≡ false = ground arith in
      let t₃ : ltb s.log.outstanding 1 ≡ false = ground arith in rw (t₁, t₂, t₃)

  block_after :
      (i : ℕ)
      → i < count
      → (update s.log.lh.block slot b i ≡ b)
        ⊎ ((i < s.log.lh.n) × (update s.log.lh.block slot b i ≡ s.log.lh.block i))
  block_after i lt = elim (Bool-cases (i == slot)) [
    | inl here ↦ inl (rw here)
    | inr other ↦
        inr (elim added [ inl (_, _, e) ↦ omega arith | inr (e, _, e') ↦ ground arith ], rw other)
  ]

  Fits-after :
      s.log.lh.n < log_size
      → s.log.lh.n + 1 < s.log.size
      → Outside s.log.start s.log.size b
      → b < 2 ^ 32
      → Fits s.log.start s.log.size count (update s.log.lh.block slot b)
  Fits-after few space out small = record {
    few = elim added [ inl (_, _, e) ↦ omega arith | inr (_, _, e) ↦ omega arith ];
    space = elim added [ inl (_, _, e) ↦ omega arith | inr (_, _, e) ↦ omega arith ];
    small = λ i lt. elim (block_after i lt) [
      | inl e ↦ rw e small
      | inr (li, e) ↦ rw e (ready.fit.small i li)
    ];
    apart = λ i lt. elim (block_after i lt) [
      | inl e ↦ rw e out
      | inr (li, e) ↦ rw e (ready.fit.apart i li)
    ];
  }

  -- The list after the write names b and all that it named before.
  Unlisted-before :
      (c : ℕ)
      → Unlisted count (update s.log.lh.block slot b) c
      → (c ≢ b) × Unlisted s.log.lh.n s.log.lh.block c
  Unlisted-before c free =
      let here : slot < count = elim added [
        | inl (lt, _, e) ↦ omega arith
        | inr (e', _, e) ↦ omega arith
      ] in
      let ne : c ≢ b =
        λ e. free slot here (e ∙ sym (update_self s.log.lh.block slot b slot refl)) in
      (
        ne,
        λ i li e. elim (Bool-cases (i == slot)) [
          | inl same ↦ elim added [
            | inl (_, eb, _) ↦ ne (e ∙ ap s.log.lh.block (==→eq _ _ same) ∙ eb)
            | inr (es, _, _) ↦ ground arith
          ]
          | inr other ↦
              free i (elim added [ inl (_, _, ec) ↦ omega arith | inr (_, _, ec) ↦ omega arith ])
                (rw other e)
        ],
      )

  after-Ready :
      s.log.lh.n < log_size
      → s.log.lh.n + 1 < s.log.size
      → Outside s.log.start s.log.size b
      → b < 2 ^ 32
      → Ready after
  unfolding after
  after-Ready few space out small = record {
    fit = Fits-after few space out small;
    head = ready.head;
    clean = λ i lt.
        update-ne s.dirty b (some a) (s.log.start + i + 1) (λ e. ground arith) ∙ ready.clean i lt;
    pinned = λ c outc free.
        let (ne, free') = Unlisted-before c free in
        update-ne s.dirty b (some a) c ne ∙ ready.pinned c outc free';
  }

  -- A write within the limits of the log returns. Readers then see the new bytes in that block and
  -- the old ones elsewhere, the disk is untouched, the transaction grows by one block, or by
  -- none if it holds the block already (absorption), and the state can commit again.
  pub log_write-Ready :
      s.log.lh.n < log_size
      → s.log.lh.n + 1 < s.log.size
      → 0 < s.log.outstanding
      → Outside s.log.start s.log.size b
      → b < 2 ^ 32
      → (t : State) × (log_write b a s ≡ done tt t)
        × Ready t
        × (t.disk ≡ s.disk)
        × ((c : ℕ) → view t c ≡ (if c == b then a else view s c))
        × (t.log.lh.n ≤ s.log.lh.n + 1)
        × ((i : ℕ) → i < s.log.lh.n → s.log.lh.block i ≡ b → t.log.lh.n ≡ s.log.lh.n)
  log_write-Ready few space open_op out small = (
    after,
    log_write_runs few space open_op,
    after-Ready few space out small,
    same_disk,
    seen,
    grows,
    absorbs,
  )
    where
      same_disk : after.disk ≡ s.disk
      same_disk = unfold after in refl

      seen : (c : ℕ) → view after c ≡ (if c == b then a else view s c)
      seen c =
          unfold after view in
          (elim (Bool-cases (c == b)) [ inl here ↦ rw (here, view) | inr other ↦ rw (other, view) ])

      grows : after.log.lh.n ≤ s.log.lh.n + 1
      grows =
          unfold after in (elim added [ inl (_, _, e) ↦ omega arith | inr (_, _, e) ↦ omega arith ])

      absorbs : (i : ℕ) → i < s.log.lh.n → s.log.lh.block i ≡ b → after.log.lh.n ≡ s.log.lh.n
      absorbs i li e =
          unfold after in
          (elim added [ inl (_, _, ec) ↦ ec | inr (_, free, _) ↦ absurd (free i li (sym e)) ])
