-- ===== src/Log/Commit.antt =====
-- commit: the writes of a transaction, in order, and what each of them leaves on the disk.
use cmpt.Prelude.{
  ℕ, suc, ◌+◌, ◌*◌, ◌<◌, ◌≤◌, ◌≡◌, ◌⊎◌, inl, inr, refl, ◌∙◌, sym, ap, subst, arith, update-ne,
  update_self, none, lt→ltb, Bool-cases, ◌==◌,
}
use cmpt.Disk.{Block, Disk, word}
use cmpt.Log.{State, Log, view, save_block, write_log, write_head, commit, bread, log_size}
use cmpt.Log.Rules.{Ends, bind, mono, put, bwrite_lem, for_from_inv, rounds_small}
use cmpt.Log.Head.{AllSmall, Says, write_head_lem}
use cmpt.Log.Recover.{
  Outside, Unlisted, Fits, Committed, Settled, Installing, install_trans-Installing, clear-Settled,
}

-- A state that can commit: the transaction in memory fits, the log on the disk is empty, and of
-- the blocks only those of the transaction are pinned.
pub record Ready (s : State) : Type 0 where
  pub fit : Fits s.log.start s.log.size s.log.lh.n s.log.lh.block
  pub head : word (s.disk s.log.start) 0 ≡ 0
  pub clean : (i : ℕ) → i + 1 < s.log.size → s.dirty (s.log.start + i + 1) ≡ none
  pub pinned :
      (b : ℕ)
      → Outside s.log.start s.log.size b
      → Unlisted s.log.lh.n s.log.lh.block b
      → s.dirty b ≡ none

module _ (s₀ : State) (ready : Ready s₀) where
  open ready use {fit}

  abbrev start : ℕ
  start = s₀.log.start

  abbrev size : ℕ
  size = s₀.log.size

  abbrev n : ℕ
  n = s₀.log.lh.n

  abbrev block : ℕ → ℕ
  block = s₀.log.lh.block

  -- The transaction is not on the disk, and the home blocks are what they were.
  abbrev pub Before : Disk → Type 0
  Before = Committed start size 0 block s₀.disk

  -- The transaction is on the disk.
  abbrev pub After : Disk → Type 0
  After = Committed start size n block (view s₀)

  record Saving (t : ℕ) (s : State) : Type 0 where
    log : s.log ≡ s₀.log
    pinned : (b : ℕ) → Outside start size b → s.dirty b ≡ s₀.dirty b
    clean : (i : ℕ) → i < n → s.dirty (start + i + 1) ≡ none
    head : word (s.disk start) 0 ≡ 0
    old : (b : ℕ) → Outside start size b → s.disk b ≡ s₀.disk b
    saved : (i : ℕ) → i < t → s.disk (start + i + 1) ≡ view s₀ (block i)

  Saving-Before : (t : ℕ) (s : State) → Saving t s → Before s.disk
  Saving-Before t s v = record {
    head = record { count = v.head; entry = λ m lt. absurd (omega arith) };
    saved = λ i lt. absurd (omega arith);
    others = λ b out _. v.old b out;
  }

  Saving-put :
      (t k : ℕ) (s : State) (b : ℕ) (a : Block)
      → t < n
      → b ≡ start + t + 1
      → a ≡ view s₀ (block t)
      → Saving t s
      → Saving (t + 1) (put s b a k)
  Saving-put t k s b a lt eb ea v = record {
    log = v.log;
    pinned = λ c out. update-ne s.dirty b none c (λ e. ground (arith, fit.space)) ∙ v.pinned c out;
    clean = λ i li. elim (Bool-cases (start + i + 1 == b)) [
      | inl same ↦ rw same
      | inr other ↦ rw other (v.clean i li)
    ];
    head = rw (update-ne s.disk b a start (λ e. ground arith)) v.head;
    old = λ c out. update-ne s.disk b a c (λ e. ground (arith, fit.space)) ∙ v.old c out;
    saved = λ i li. elim (Bool-cases (start + i + 1 == b)) [
      | inl same ↦ let e : i ≡ t = ground arith in rw same (rw e ea)
      | inr other ↦ rw other (v.saved i (ground arith))
    ];
  }

  view_home : (t : ℕ) (s : State) (b : ℕ) → Outside start size b → Saving t s → view s b ≡ view s₀ b
  unfolding view
  view_home t s b out v = ground (arith, v.pinned b out, v.old b out)

  save_block-Saving :
      (t : ℕ) (s : State)
      → t < n
      → Saving t s
      → Ends
          (λ _ u. Saving (t + 1) u × (suc u.power ≡ s.power))
          (λ d. Before d × (s.power ≡ 0))
          (save_block t s)
  unfolding save_block bread
  save_block-Saving t s lt v =
      mono (bwrite_lem (s.log.start + t + 1) (view s (s.log.lh.block t)) s)
        (λ _ u (e, cost). (
          rw e (
              Saving-put t u.power s _ _ lt (ap (λ (l : Log). l.start + t + 1) v.log)
                (ap (λ (l : Log). view s (l.lh.block t)) v.log
                  ∙ view_home t s (block t) (fit.apart t lt) v)
                v),
          cost,
        ))
        (λ d (e, out). (rw e (Saving-Before t s v), out))

  write_log-Saving :
      Ends
        (λ _ u. Saving n u × (u.power + n ≡ s₀.power))
        (λ d. Before d × (s₀.power < n))
        (write_log s₀)
  unfolding write_log
  write_log-Saving = simp (rounds_small n fit.few) (
      for_from_inv Saving Before save_block n save_block-Saving n 0 s₀ (omega arith) (record {
        log = refl;
        pinned = λ b out. refl;
        clean = λ i li. ready.clean i (omega (arith, fit.space));
        head = ready.head;
        old = λ b out. refl;
        saved = λ i li. absurd (omega arith);
      }))

  view_unpinned : (b : ℕ) → Outside start size b → Unlisted n block b → s₀.disk b ≡ view s₀ b
  unfolding view
  view_unpinned b out free = rw (ready.pinned b out free, view)

  -- The write of the header is the commit point.
  head-Installing :
      (k : ℕ) (s : State) (h : ℕ) (hb : Block)
      → h ≡ start
      → Says hb n block
      → Saving n s
      → Installing start size n block (view s₀) fit 0 (put s h hb k)
  head-Installing k s h hb e says v = record {
    at_start = ap (λ (l : Log). l.start) v.log;
    count = ap (λ (l : Log). l.lh.n) v.log;
    list = λ i li. ap (λ (l : Log). l.lh.block i) v.log;
    clean = λ i li. update-ne s.dirty h none (start + i + 1) (λ q. ground arith) ∙ v.clean i li;
    logged = record {
      head = rw (update_self s.disk h hb start (sym e)) says;
      saved = λ i li. update-ne s.disk h hb (start + i + 1) (λ q. ground arith) ∙ v.saved i li;
      others = λ b out free.
          update-ne s.disk h hb b (λ q. ground (arith, fit.space))
          ∙ v.old b out
          ∙ view_unpinned b out free;
    };
    home = λ i li. absurd (omega arith);
  }

  write_head-Installing :
      (s : State)
      → Saving n s
      → Ends
          (λ _ u. Installing start size n block (view s₀) fit 0 u × (suc u.power ≡ s.power))
          (λ d. Before d × (s.power ≡ 0))
          (write_head s)
  write_head-Installing s v =
      let same : (P : Log → Type 0) → P s₀.log → P s.log = λ P p. subst P (sym v.log) p in
      mono
        (write_head_lem s (same (λ l. l.lh.n ≤ log_size) fit.few)
          (same (λ l. AllSmall l.lh.n l.lh.block) fit.small))
        (λ _ u (w, cost). (
          rw w.state (
              head-Installing u.power s s.log.start w.hb (ap (λ (l : Log). l.start) v.log)
                (subst (λ (l : Log). Says w.hb l.lh.n l.lh.block) v.log w.says) v),
          cost,
        ))
        (λ d (e, out). (rw e (Saving-Before n s v), out))

  -- A crash: the disk holds the old contents and no transaction, or the whole transaction; and it
  -- is the header's write, the one after the n blocks of the log, that decides.
  abbrev pub Crashed : Disk → Type 0
  Crashed d = (Before d × (s₀.power ≤ n)) ⊎ (After d × (n < s₀.power) × (s₀.power < 2 * n + 2))

  -- commit writes each block twice and the header twice. With that much power it completes: the home
  -- blocks hold what was cached, and the log is empty. With less it stops at `Crashed`.
  pub commit-Settled :
      0 < n
      → Ends
          (λ _ u. Settled start size (view s₀) u.disk × (u.power + (2 * n + 2) ≡ s₀.power))
          Crashed
          (commit s₀)
  unfolding commit
  commit-Settled some = simp (lt→ltb 0 n some) (
      bind (mono write_log-Saving (λ _ s p. p) (λ d (b, out). inl (b, omega arith))) λ _ s (v, c₁).
        bind (mono (write_head-Installing s v) (λ _ t p. p) (λ d (b, out). inl (b, omega arith)))
          λ _ t (v', c₂).
            bind
              (mono (install_trans-Installing start size n block (view s₀) fit t v') (λ _ t p. p)
                (λ d (a, out). inr (a, omega arith, omega arith)))
              λ _ u (v'', c₃).
                mono (clear-Settled start size n block (view s₀) fit u v'')
                  (λ _ w (settled, c₄). (settled, omega arith))
                  (λ d (a, out). inr (a, omega arith, omega arith)))
