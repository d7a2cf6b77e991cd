-- ===== src/Proc/Life/NoLost.antt =====
-- No lost wakeup: a process does not sleep in wait while it has a zombie child.
use cmpt.Prelude.{ℕ, ◌<◌, ◌≡◌, refl, ◌∙◌, sym, ap, subst, arith, some}
use cmpt.Proc.{Table, zombie, nproc, is_sleeping, tidy_up, yield}
use cmpt.Proc.Services.{Services}
use cmpt.Proc.Life.Passed.{SleepsOn, is_alive, runnable-ne_sleeping}
use cmpt.Proc.Life.Family.{Tended}
use cmpt.Proc.Life.Steps.{
  Step, claims, gives_stack, forks_into, exits, waits, sleeps, tidies, yields, wakes, kills,
  schedules, Reach, start, later,
}
use cmpt.Proc.Life.Keeps.{
  wakeup1-Tended, claim_slot-Tended, give_stack-Tended, fork_into-Tended, wait-Tended, sleep-Tended,
  awake-Tended, kill-Tended, exit_table-Tended, schedule-Tended, Good,
}

module _ {R : Type 0} (v : Services R) (init : ℕ) (lt_init : init < nproc) where
  Step-Tended : {t u : Table} → Step v init t u → Good v init lt_init t → Good v init lt_init u
  unfolding tidy_up yield
  Step-Tended (claims k e) d =
      claim_slot-Tended v init lt_init k (subst (Good v init lt_init) (sym e) d)
  Step-Tended (gives_stack i k e lt young) d =
      give_stack-Tended v init lt_init i k lt (ap (λ (t : Table). (t i).state) e ∙ young)
        (subst (Good v init lt_init) (sym e) d)
  Step-Tended (forks_into me i k e _ lt runs young) d =
      fork_into-Tended v init lt_init me i k lt (ap (λ (t : Table). (t me).state) e ∙ runs)
        (ap (λ (t : Table). (t i).state) e ∙ young) (subst (Good v init lt_init) (sym e) d)
  Step-Tended {t} (exits me lt _ ne) d = exit_table-Tended v init lt_init me t lt ne d
  Step-Tended (waits me k e lt runs) d =
      wait-Tended v init lt_init me k lt (ap (λ (t : Table). (t me).state) e ∙ runs)
        (subst (Good v init lt_init) (sym e) d)
  Step-Tended {t} (sleeps me chan lt runs other) d =
      sleep-Tended v init lt_init me chan t lt runs other d
  Step-Tended {t} (tidies me lt runs) d =
      awake-Tended v init lt_init me t _ lt (ap is_alive runs)
        (λ s. ground (arith, ap is_sleeping (sym runs ∙ s))) refl d
  Step-Tended {t} (yields me lt _) d =
      awake-Tended v init lt_init me t _ lt refl runnable-ne_sleeping refl d
  Step-Tended {t} (wakes chan) d = wakeup1-Tended v init lt_init chan t d
  Step-Tended {t} (kills pid) d = kill-Tended v init lt_init pid t d
  Step-Tended {t} (schedules {t'} i lt e) d = schedule-Tended v init lt_init i t t' lt e d

  Reach-Tended : {t₀ t : Table} → Good v init lt_init t₀ → Reach v init t₀ t → Good v init lt_init t
  Reach-Tended d start = d
  Reach-Tended d (later r st) = Step-Tended st (Reach-Tended d r)

-- However the processes interleave, from a table in which init is alive and without a parent, no
-- process is its own parent and nobody sleeps on his own slot with a zombie child: no process of
-- the table ever sleeps on its own slot, as wait does, while one of its children is a zombie.
pub no_lost_wakeup :
    {R : Type 0} (v : Services R) (init : ℕ) {t₀ t : Table} (i j : ℕ)
    → init < nproc
    → Tended v.slot_addr init t₀
    → Reach v init t₀ t
    → i < nproc
    → j < nproc
    → (t j).parent ≡ some i
    → (t j).state ≡ zombie
    → ¬ SleepsOn (v.slot_addr i) (t i)
no_lost_wakeup v init i j lt d r li lj mine z = (Reach-Tended v init lt d r).tended i j li lj mine z
