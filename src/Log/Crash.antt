-- ===== src/Log/Crash.antt =====
-- Atomicity and durability of a commit across power failures.
use cmpt.Prelude.{ℕ, ◌+◌, ◌*◌, ◌<◌, ◌≤◌, ◌≡◌, ◌⊎◌, inl, inr, arith}
use cmpt.Disk.{Disk, word}
use cmpt.Log.{State, Run, done, crashed, view, commit, recover_from_log, boot}
use cmpt.Log.Rules.{Ends, Ends-done, ends-crashed}
use cmpt.Log.Recover.{Outside, Fits}
use cmpt.Log.Reboot.{Reboots, recover-Settled, Reboots-Settled}
use cmpt.Log.Commit.{Ready, Crashed, commit-Settled}

-- The home blocks of the disk `d` are those of `e`.
abbrev pub SameHome : State → Disk → Disk → Type 0
SameHome s d e = (b : ℕ) → Outside s.log.start s.log.size b → d b ≡ e b

none-Fits : {start size n : ℕ} {block : ℕ → ℕ} → Fits start size n block → Fits start size 0 block
none-Fits fit = record {
  few = omega arith;
  space = omega (arith, fit.space);
  small = λ m lt. absurd (omega arith);
  apart = λ i lt. absurd (omega arith);
}

module _ {s : State} (ready : Ready s) (some : 0 < s.log.lh.n) where
  -- If the power fails during a commit, then after the reboots, whichever of their recoveries fail
  -- too, every block outside the log is as it was before the transaction, or every one is as the
  -- transaction made it. The commit point is the write of the header: the old contents are found
  -- if at most n disk writes happened, the new ones if more did.
  pub commit_atomic :
      {d e : Disk}
      → commit s ≡ crashed d
      → Reboots s.log.start s.log.size d e
      → ((s.power ≤ s.log.lh.n) × SameHome s e s.disk)
        ⊎ ((s.log.lh.n < s.power) × SameHome s e (view s))
  commit_atomic run boots = elim (ends-crashed (commit-Settled s ready some) run) [
    | inl (before, early) ↦
        inl
          (early, (Reboots-Settled 0 s.log.lh.block s.disk (none-Fits ready.fit) before boots).home)
    | inr (after, late, _) ↦
        inr (late, (Reboots-Settled s.log.lh.n s.log.lh.block (view s) ready.fit after boots).home)
  ]

  -- A commit of n blocks takes 2n + 2 disk writes and no more: given them it returns, with the home
  -- blocks of the disk as the transaction made them and with an empty log.
  pub commit_durable :
      2 * s.log.lh.n + 2 ≤ s.power
      → (u : State) × (commit s ≡ done tt u)
        × SameHome s u.disk (view s)
        × (word (u.disk s.log.start) 0 ≡ 0)
        × (u.power + (2 * s.log.lh.n + 2) ≡ s.power)
  commit_durable enough =
      let (_, u, run, p) = Ends-done (commit-Settled s ready some) (λ d c. too_early d c) in
      (u, run, p.0.home, p.0.head, p.1)
    where
      too_early : (d : Disk) → ¬ (Crashed s ready d)
      too_early d (inl (_, early)) = absurd (omega arith)
      too_early d (inr (_, _, early)) = absurd (omega arith)

  -- After a power failure in commit a reboot with n + 1 disk writes completes its recovery.
  pub commit_recovers :
      {d : Disk} (power : ℕ)
      → commit s ≡ crashed d
      → s.log.lh.n < power
      → (u : State) × (recover_from_log (boot d power s.log.start s.log.size) ≡ done tt u)
  commit_recovers {d} power run enough = elim (ends-crashed (commit-Settled s ready some) run) [
    | inl (before, early) ↦
        returns
          (recover-Settled s.log.start s.log.size 0 s.log.lh.block s.disk (none-Fits ready.fit) d
            power before)
          (omega arith)
    | inr (after, late, _) ↦
        returns
          (recover-Settled s.log.start s.log.size s.log.lh.n s.log.lh.block (view s) ready.fit d
            power after)
          (omega arith)
  ]
    where
      returns :
          {P : Unit {0} → State → Type 0} {C : Disk → Type 0} {k : ℕ} {r : Run (Unit {0})}
          → Ends P (λ e. C e × (power < k)) r
          → k ≤ power
          → (u : State) × (r ≡ done tt u)
      returns e le =
          let (_, u, run, _) = Ends-done e (λ d (_, lt). absurd (omega arith)) in (u, run)
