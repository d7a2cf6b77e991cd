-- ===== src/Log/Examples.antt =====
-- The log at small concrete transactions.
use cmpt.Prelude.{
  ℕ, ◌+◌, ◌*◌, ◌<◌, ◌≤◌, ◌≡◌, ◌⊎◌, ◌↔◌, refl, arith, none, some, [], ◌∷◌, if◌then◌else◌, ◌==◌,
  false, update,
}
use cmpt.Disk.{Block, Disk, word, set_word}
use cmpt.Log.{
  State, Run, done, crashed, panic, underflow, view, rounds, bread, commit, recover_from_log, boot,
  bwrite, log_write, log_size, begin_op,
}
use cmpt.Log.Reboot.{Reboots, completes, fails}
use cmpt.Log.Commit.{Ready}
use cmpt.Log.Crash.{SameHome, commit_atomic, commit_durable, commit_recovers}
use cmpt.Log.Absorb.{log_write-Ready}
use cmpt.Log.Reserve.{Reach, start, later, begins, Fresh, reserve_room}

abbrev zeros : Disk
zeros = λ _ _. 0

abbrev sevens : Block
sevens = λ _. 7

-- One block, 40, is logged; the log area is 2 to 32.
abbrev one_block : ℕ → State
one_block power = record {
  disk = zeros;
  dirty = update (λ _. none) 40 (some sevens);
  power = power;
  log = record {
    start = 2;
    size = 31;
    outstanding = 1;
    committing = false;
    lh = record { n = 1; block = λ _. 40 };
  };
}

one_block-Ready : (power : ℕ) → Ready (one_block power)
unfolding word
one_block-Ready power = record {
  fit = record {
    few = omega arith;
    space = omega arith;
    small = λ m lt. omega arith;
    apart = λ i lt. omega arith;
  };
  head = refl;
  clean = λ i lt. ground arith;
  pinned = λ b out free. ground (arith, free 0 (omega arith));
}

abbrev disk_of : Run (Unit {0}) → Disk
disk_of (crashed d) = d
disk_of (done _ s) = s.disk
disk_of panic = zeros
disk_of underflow = zeros

-- The power fails after two disk writes: the log block and the header.
abbrev torn : Disk
torn = disk_of (commit (one_block 2))

one_crash : commit (one_block 2) ≡ crashed torn
unfolding commit bwrite view rounds bread
one_crash = refl

-- Recovery fails once, after one write, and then completes.
abbrev rebooted : Disk
rebooted = disk_of (recover_from_log (boot (disk_of (recover_from_log (boot torn 1 2 31))) 9 2 31))

two_boots : Reboots 2 31 torn rebooted
unfolding commit recover_from_log bwrite view boot word set_word rounds bread
two_boots = fails 1 refl (completes 9 refl)

recovered : (rebooted 40 5 ≡ 7) × (rebooted 41 5 ≡ 0)
unfolding commit recover_from_log bwrite view boot word set_word rounds bread
recovered = (refl, refl)

commit_atomic_example :
    ((2 ≤ 1) × SameHome (one_block 2) rebooted zeros)
    ⊎ ((1 < 2) × SameHome (one_block 2) rebooted (view (one_block 2)))
commit_atomic_example = commit_atomic (one_block-Ready 2) (omega arith) one_crash two_boots

commit_durable_example :
    (u : State) × (commit (one_block 4) ≡ done tt u)
    × SameHome (one_block 4) u.disk (view (one_block 4))
    × (word (u.disk 2) 0 ≡ 0)
    × (u.power + (2 * 1 + 2) ≡ 4)
commit_durable_example = commit_durable (one_block-Ready 4) (omega arith) (omega arith)

commit_recovers_example : (u : State) × (recover_from_log (boot torn 5 2 31) ≡ done tt u)
commit_recovers_example =
    commit_recovers (one_block-Ready 2) (omega arith) 5 one_crash (omega arith)

log_write-Ready_example :
    (t : State) × (log_write 41 sevens (one_block 0) ≡ done tt t)
    × Ready t
    × (t.disk ≡ zeros)
    × ((c : ℕ) → view t c ≡ (if c == 41 then sevens else view (one_block 0) c))
    × (t.log.lh.n ≤ 1 + 1)
    × ((i : ℕ) → i < 1 → (one_block 0).log.lh.block i ≡ 41 → t.log.lh.n ≡ 1)
log_write-Ready_example =
    log_write-Ready (one_block-Ready 0) 41 sevens (omega arith) (omega arith) (omega arith)
      (omega arith) (omega arith)

-- An idle log whose area has `size` blocks.
abbrev idle : ℕ → State
idle size = boot zeros 0 2 size

idle-Fresh : (size : ℕ) → Fresh (idle size)
unfolding boot
idle-Fresh size = record { empty = refl; idle = refl; open_log = refl }

abbrev opened : ℕ → State
opened size = record (idle size) { log = (begin_op (idle size).log).0 }

one_call : (size : ℕ) → Reach (idle size) (opened size) (0 ∷ [])
unfolding begin_op boot
one_call size = later start (begins refl)

reserve_room_example :
    ((opened 31).log.lh.n < log_size)
    × ((log_write 40 sevens (opened 31) ≡ panic) ↔ ((idle 31).log.size ≤ (opened 31).log.lh.n + 1))
reserve_room_example =
    reserve_room [] 0 [] 40 sevens (idle-Fresh 31) (one_call 31) refl (omega arith)
