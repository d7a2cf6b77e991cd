-- ===== src/Log/Recover.antt =====
-- recover_from_log on a disk whose log holds a transaction.
use cmpt.Prelude.{
  ℕ, zero, suc, ◌+◌, ◌<◌, ◌≤◌, ◌≡◌, ◌≢◌, ◌⊎◌, inl, inr, ◌∙◌, sym, ap, arith, update, update-ne,
  update_self, none, ◌==◌, Bool-cases, tests, ==→eq,
}
use cmpt.Disk.{Block, Disk, word}
use cmpt.Log.{
  State, view, ◌>>◌, install_block, install_trans, write_head, clear_head, log_size, bread,
}
use cmpt.Log.Rules.{Ends, mono, put, bwrite_lem, for_from_inv, rounds_small}
use cmpt.Log.Head.{AllSmall, Says, write_head_lem}

-- A block that is not of the log area.
abbrev pub Outside : ℕ → ℕ → ℕ → Type 0
Outside start size b = (b < start) ⊎ (start + size ≤ b)

-- `b` is not one of the first n numbers of `block`.
abbrev pub Unlisted : ℕ → (ℕ → ℕ) → ℕ → Type 0
Unlisted n block b = (i : ℕ) → i < n → b ≢ block i

pub listed? :
    (n : ℕ) (block : ℕ → ℕ) (b : ℕ) → ((i : ℕ) × (i < n) × (b ≡ block i)) ⊎ Unlisted n block b
listed? zero block b = inr (λ i lt. absurd (omega arith))
listed? (suc n) block b = elim (listed? n block b) [
  | inl (i, lt, e) ↦ inl (i, omega arith, e)
  | inr out ↦ elim (Bool-cases (b == block n)) [
    | inl here ↦ inl (n, omega arith, omega tests)
    | inr other ↦ inr (λ i lt e. ground (arith, out i))
  ]
]

-- A transaction fits the log: its blocks are below 2^32, lie outside the log area, and the log
-- area has room for them behind the header.
pub record Fits (start size n : ℕ) (block : ℕ → ℕ) : Type 0 where
  pub few : n ≤ log_size
  pub space : n < size
  pub small : AllSmall n block
  pub apart : (i : ℕ) → i < n → Outside start size (block i)

-- The log on the disk holds the transaction that makes the home blocks `new`.
pub record Committed (start size n : ℕ) (block : ℕ → ℕ) (new d : Disk) : Type 0 where
  pub head : Says (d start) n block
  pub saved : (i : ℕ) → i < n → d (start + i + 1) ≡ new (block i)
  pub others : (b : ℕ) → Outside start size b → Unlisted n block b → d b ≡ new b

-- The home blocks are `new` and the log is empty.
pub record Settled (start size : ℕ) (new d : Disk) : Type 0 where
  pub head : word (d start) 0 ≡ 0
  pub home : (b : ℕ) → Outside start size b → d b ≡ new b

module _ (start size n : ℕ) (block : ℕ → ℕ) (new : Disk) (fit : Fits start size n block) where
  -- What install_trans keeps; `t` blocks are home.
  pub record Installing (t : ℕ) (s : State) : Type 0 where
    pub at_start : s.log.start ≡ start
    pub count : s.log.lh.n ≡ n
    pub list : (i : ℕ) → i < n → s.log.lh.block i ≡ block i
    pub clean : (i : ℕ) → i < n → s.dirty (start + i + 1) ≡ none
    pub logged : Committed start size n block new s.disk
    pub home : (i : ℕ) → i < t → s.disk (block i) ≡ new (block i)

  apart_start : (t : ℕ) → t < n → start ≢ block t
  apart_start t lt e = ground (arith, fit.apart t lt, fit.space)

  apart_saved : (i t : ℕ) → i < n → t < n → start + i + 1 ≢ block t
  apart_saved i t li lt e = ground (arith, fit.apart t lt, fit.space)

  Committed-home :
      (d : Disk) (t : ℕ)
      → t < n
      → Committed start size n block new d
      → Committed start size n block new (update d (block t) (new (block t)))
  Committed-home d t lt c = record {
    head = rw (update-ne d (block t) (new (block t)) start (apart_start t lt)) c.head;
    saved = λ i li.
        update-ne d (block t) (new (block t)) (start + i + 1) (apart_saved i t li lt)
        ∙ c.saved i li;
    others =
        λ b out free. update-ne d (block t) (new (block t)) b (free t lt) ∙ c.others b out free;
  }

  -- Installing block t once more, or for the first time, makes it new.
  home_next :
      (d : Disk) (t : ℕ)
      → ((i : ℕ) → i < t → d (block i) ≡ new (block i))
      → (i : ℕ) → i < t + 1
      → update d (block t) (new (block t)) (block i) ≡ new (block i)
  home_next d t home i li = elim (Bool-cases (block i == block t)) [
    | inl same ↦ rw same (ap new (sym (==→eq _ _ same)))
    | inr other ↦ rw other (home i (ground arith))
  ]

  log_data :
      (t : ℕ) (s : State) → t < n → Installing t s → view s (s.log.start + t + 1) ≡ new (block t)
  unfolding view
  log_data t s lt v = rw (v.at_start, v.clean t lt) (v.logged.saved t lt)

  Installing-put :
      (t k : ℕ) (s : State)
      → t < n
      → Installing t s
      → Installing (t + 1) (put s (block t) (new (block t)) k)
  Installing-put t k s lt v = record {
    at_start = v.at_start;
    count = v.count;
    list = v.list;
    clean = λ i li.
        update-ne s.dirty (block t) none (start + i + 1) (apart_saved i t li lt) ∙ v.clean i li;
    logged = Committed-home s.disk t lt v.logged;
    home = home_next s.disk t v.home;
  }

  install_block-Installing :
      (t : ℕ) (s : State)
      → t < n
      → Installing t s
      → Ends
          (λ _ u. Installing (t + 1) u × (suc u.power ≡ s.power))
          (λ d. Committed start size n block new d × (s.power ≡ 0))
          (install_block t s)
  unfolding install_block bread
  install_block-Installing t s lt v =
      mono (bwrite_lem (s.log.lh.block t) (view s (s.log.start + t + 1)) s)
        (λ _ u (e, cost).
          (rw e (rw (v.list t lt, log_data t s lt v) (Installing-put t u.power s lt v)), cost))
        (λ d (e, out). (rw e v.logged, out))

  -- The whole of install_trans, from a disk with the transaction in its log.
  pub install_trans-Installing :
      (s : State)
      → Installing 0 s
      → Ends
          (λ _ u. Installing n u × (u.power + n ≡ s.power))
          (λ d. Committed start size n block new d × (s.power < n))
          (install_trans s)
  unfolding install_trans
  install_trans-Installing s v =
      simp (v.count, rounds_small n fit.few)
        (for_from_inv Installing (Committed start size n block new) install_block n
          install_block-Installing n 0 s (omega arith) v)

  all_home : (s : State) → Installing n s → (b : ℕ) → Outside start size b → s.disk b ≡ new b
  all_home s v b out = elim (listed? n block b) [
    | inl (i, li, e) ↦ rw e (v.home i li)
    | inr free ↦ v.logged.others b out free
  ]

  -- The header that says that the log is empty.
  pub clear-Settled :
      (s : State)
      → Installing n s
      → Ends
          (λ _ u. Settled start size new u.disk × (suc u.power ≡ s.power))
          (λ d. Committed start size n block new d × (s.power ≡ 0))
          ((clear_head >> write_head) s)
  unfolding clear_head
  clear-Settled s v =
      mono
        (write_head_lem (record s { log = record s.log { lh = record s.log.lh { n = 0 } } })
          (omega arith) (λ m lt. absurd (omega arith)))
        (λ _ u (w, cost). (rw w.state (settle w.hb u.power w.says.count), cost))
        (λ d (e, out). (rw e v.logged, out))
    where
      settle :
          (hb : Block) (k : ℕ)
          → word hb 0 ≡ 0
          → Settled start size new (update s.disk s.log.start hb)
      settle hb k zero_count = record {
        head = rw (update_self s.disk s.log.start hb start (sym v.at_start)) zero_count;
        home = λ b out.
            update-ne s.disk s.log.start hb b (λ e. ground (arith, v.at_start, fit.space))
            ∙ all_home s v b out;
      }
