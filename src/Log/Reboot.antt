-- ===== src/Log/Reboot.antt =====
-- initlog's recovery after power-on, however often the power fails while it runs.
use cmpt.Prelude.{ℕ, suc, ◌+◌, ◌<◌, ◌≡◌, refl, ◌∙◌, arith}
use cmpt.Disk.{Disk, word}
use cmpt.Log.{
  State, done, crashed, view, boot, recover_from_log, read_head, read_blocks, rounds, bread,
}
use cmpt.Log.Rules.{Ends, ends, bind, mono, rounds_small, ends-crashed, ends-done}
use cmpt.Log.Head.{read_blocks_at}
use cmpt.Log.Recover.{Fits, Committed, Settled, Installing, install_trans-Installing, clear-Settled}

module _ (start size n : ℕ) (block : ℕ → ℕ) (new : Disk) (fit : Fits start size n block) where
  read_head-Installing :
      (d : Disk) (power : ℕ)
      → Committed start size n block new d
      → Ends
          (λ _ u. Installing start size n block new fit 0 u × (u.power ≡ power))
          (λ _. ⊥)
          (read_head (boot d power start size))
  unfolding read_head boot bread view
  read_head-Installing d power c = ends (
    record {
      at_start = refl;
      count = c.head.count;
      list = λ i li. entry i li;
      clean = λ i li. refl;
      logged = c;
      home = λ i li. absurd (omega arith);
    },
    refl,
  )
    where
      entry :
          (i : ℕ) → i < n → read_blocks (rounds (word (d start) 0)) 0 (d start) (λ _. 0) i ≡ block i
      entry i li =
          rw (c.head.count, rounds_small n fit.few)
            (read_blocks_at n 0 (d start) (λ _. 0) i (omega arith) (omega arith)
              ∙ c.head.entry i li)

  -- From a committed log recovery makes the home blocks new and empties the log, with n + 1 disk
  -- writes; if the power fails before that the log is still committed.
  pub recover-Settled :
      (d : Disk) (power : ℕ)
      → Committed start size n block new d
      → Ends
          (λ _ u. Settled start size new u.disk × (u.power + suc n ≡ power))
          (λ e. Committed start size n block new e × (power < suc n))
          (recover_from_log (boot d power start size))
  unfolding recover_from_log
  recover-Settled d power c =
      bind (mono (read_head-Installing d power c) (λ _ u p. p) (λ e p. absurd p)) λ _ s (v, same).
        bind
          (mono (install_trans-Installing start size n block new fit s v) (λ _ u p. p)
            (λ e (c', out). (c', omega arith)))
          λ _ t (v', cost).
            mono (clear-Settled start size n block new fit t v')
              (λ _ u (settled, cost'). (settled, omega arith)) (λ e (c', out). (c', omega arith))

-- A history of reboots: each boots with some power, the last one completes its recovery.
pub data Reboots (start size : ℕ) : Disk → Disk → Type 0 where
  fails :
      {d d' e : Disk} (power : ℕ)
      → recover_from_log (boot d power start size) ≡ crashed d'
      → Reboots start size d' e
      → Reboots start size d e
  completes :
      {d : Disk} {u : State} (power : ℕ)
      → recover_from_log (boot d power start size) ≡ done tt u
      → Reboots start size d u.disk

-- From a committed log, the reboot that completes leaves the new home blocks, however often the
-- power failed in recoveries before it.
pub Reboots-Settled :
    {start size : ℕ} {d e : Disk} (n : ℕ) (block : ℕ → ℕ) (new : Disk)
    → Fits start size n block
    → Committed start size n block new d
    → Reboots start size d e
    → Settled start size new e
Reboots-Settled {start} {size} n block new fit c (fails {d} power run more) =
    Reboots-Settled n block new fit
      (ends-crashed (recover-Settled start size n block new fit d power c) run).0 more
Reboots-Settled {start} {size} n block new fit c (completes {d} power run) =
    (ends-done (recover-Settled start size n block new fit d power c) run).0
