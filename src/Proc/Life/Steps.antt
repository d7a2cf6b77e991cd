-- ===== src/Proc/Life/Steps.antt =====
-- The runs under ptable.lock as steps of one table, in any order.
use cmpt.Prelude.{ℕ, ◌<◌, ◌≡◌, ◌≢◌, some}
use cmpt.Proc.{Table, embryo, running, nproc, wakeup1, kill, sleep, tidy_up, yield, schedule}
use cmpt.Proc.Services.{Services, Kernel}
use cmpt.Proc.Life.{claim_slot, give_stack, fork_into, exit_table, wait}

-- `me` runs in the steps that are its own. allocproc is two steps, and fork one more: other
-- processes run in between.
-- Only wait sleeps on the process's own slot.
module _ {R : Type 0} (v : Services R) (init : ℕ) where
  pub data Step (t : Table) : Table → Type 0 where
    claims : (k : Kernel R) → k.table ≡ t → Step t (claim_slot v k).1.table
    gives_stack :
        (i : ℕ) (k : Kernel R)
        → k.table ≡ t
        → i < nproc
        → (t i).state ≡ embryo
        → Step t (give_stack v i k).1.table
    forks_into :
        (me i : ℕ) (k : Kernel R)
        → k.table ≡ t
        → me < nproc
        → i < nproc
        → (t me).state ≡ running
        → (t i).state ≡ embryo
        → Step t (fork_into v me i k).1.table
    exits :
        (me : ℕ) → me < nproc → (t me).state ≡ running → me ≢ init → Step t (exit_table v init me t)
    waits :
        (me : ℕ) (k : Kernel R)
        → k.table ≡ t
        → me < nproc
        → (t me).state ≡ running
        → Step t (wait v me k).0.table
    sleeps :
        (me chan : ℕ)
        → me < nproc
        → (t me).state ≡ running
        → chan ≢ v.slot_addr me
        → Step t (sleep me chan t)
    tidies : (me : ℕ) → me < nproc → (t me).state ≡ running → Step t (tidy_up me t)
    yields : (me : ℕ) → me < nproc → (t me).state ≡ running → Step t (yield me t)
    wakes : (chan : ℕ) → Step t (wakeup1 chan t)
    kills : (pid : ℕ) → Step t (kill pid t).0
    schedules : {t' : Table} (i : ℕ) → i < nproc → schedule i t ≡ some t' → Step t t'

  pub data Reach (t₀ : Table) : Table → Type 0 where
    start : Reach t₀ t₀
    later : {t t' : Table} → Reach t₀ t → Step t t' → Reach t₀ t'
