-- ===== src/Proc/Life/Examples.antt =====
-- A kernel with two processes.
use cmpt.Prelude.{
  ℕ, ◌+◌, ◌*◌, ◌<◌, ◌≡◌, ◌≢◌, refl, arith, true, false, none, some, ◌==◌, update, sym, ap, ◌∙◌,
  Bool-cases, inl, inr,
}
use cmpt.Proc.{Proc, Table, unused, running, zombie, nproc, kill, wakeup1, schedule, is_running}
use cmpt.Proc.Services.{Services, Kernel}
use cmpt.Proc.Life.{claim_slot, give_stack, allocproc, fork_into, fork, wait, reaped, exit_table}
use cmpt.Proc.Life.Passed.{SleepsOn}
use cmpt.Proc.Life.Exit.{exit_table-orphans}
use cmpt.Proc.Life.Family.{Tended, none-ne_some}
use cmpt.Proc.Life.Fork.{Allocated, allocproc-Allocated}
use cmpt.Proc.Life.Wait.{Waited, wait-Waited}
use cmpt.Proc.Life.Steps.{Reach, start, later, claims, gives_stack, forks_into, schedules, exits}
use cmpt.Proc.Life.NoLost.{no_lost_wakeup}
use cmpt.Proc.Life.Kill.{kill_unborn}

-- A rest of the kernel that counts the pages handed out.
abbrev services : Services ℕ
services = record {
  kalloc = λ r. (4096 + r, r + 1);
  kfree = λ _ r. r;
  copyuvm = λ _ _ r. (8192 + r, r + 1);
  freevm = λ _ r. r;
  filedup = λ _ r. r;
  fileclose = λ _ r. r;
  idup = λ _ r. r;
  put_cwd = λ _ r. r;
  slot_addr = λ i. 1000 + i * 124;
}

abbrev blank : Proc
blank = record {
  sz = 0;
  pgdir = 0;
  kstack = 0;
  state = unused;
  pid = 0;
  parent = none;
  tf = record { eax = 0; others = 0 };
  chan = 0;
  killed = false;
  ofile = λ _. 0;
  cwd = 0;
  name = λ _. 0;
}

-- init runs, with pid 1
abbrev boot : Kernel ℕ
boot = record {
  table = update (λ _. blank) 0 (record blank { state = running; pid = 1; pgdir = 7; sz = 4096 });
  nextpid = 2;
  rest = 0;
}

abbrev embryonic : Kernel ℕ
embryonic = (allocproc services boot).1

abbrev forked : Kernel ℕ
forked = (fork_into services 0 1 embryonic).1

abbrev child_runs : Table
child_runs = update forked.table 1 (record (forked.table 1) { state = running })

abbrev child_gone : Table
child_gone = exit_table services 0 1 child_runs

boot-parent : (i : ℕ) → (boot.table i).parent ≡ none
boot-parent i = elim (Bool-cases (i == 0)) [ inl e ↦ rw e refl | inr e ↦ rw e refl ]

boot-Tended : Tended services.slot_addr 0 boot.table
boot-Tended = record {
  init_alive = refl;
  orphan = refl;
  apart = λ i _ e. none-ne_some i (sym (boot-parent i) ∙ e);
  tended = λ i j _ _ e _ _. none-ne_some i (sym (boot-parent j) ∙ e);
}

child_gone-Reach : Reach services 0 boot.table child_gone
unfolding claim_slot give_stack allocproc fork_into schedule
child_gone-Reach =
    later
      (later
        (later
          (later (later start (claims boot refl))
            (gives_stack 1 (claim_slot services boot).1 refl (omega arith) refl))
          (forks_into 0 1 embryonic refl (omega arith) (omega arith) refl refl))
        (schedules 1 (omega arith) refl))
      (exits 1 (omega arith) refl (omega arith))

no_lost_wakeup_example : ¬ SleepsOn (services.slot_addr 0) (child_gone 0)
unfolding allocproc fork_into exit_table wakeup1
no_lost_wakeup_example =
    no_lost_wakeup services 0 0 1 (omega arith) boot-Tended child_gone-Reach (omega arith)
      (omega arith) refl refl

exit_table-orphans_example :
    ((child_gone 1).state ≡ zombie)
    × ((m : ℕ)
        → m < nproc
        → ((child_gone m).parent ≢ some 1)
          × ((child_runs m).parent ≡ some 1 → (child_gone m).parent ≡ some 0))
exit_table-orphans_example = exit_table-orphans services 0 1 child_runs (omega arith) (omega arith)

allocproc-Allocated_example : Allocated services boot (allocproc services boot).0 embryonic
allocproc-Allocated_example = allocproc-Allocated services boot

wait-Waited_example :
    Waited services 0
      (record forked { table = child_gone })
      (wait services 0 (record forked { table = child_gone })).0
      (wait services 0 (record forked { table = child_gone })).1
wait-Waited_example = wait-Waited services 0 (record forked { table = child_gone })

first_slot : (m : ℕ) → m < 1 → boot.table m ≡ boot.table 0
first_slot m lt = let z : m ≡ 0 = omega arith in ap boot.table z

kill_unborn_example :
    ((kill 0 boot.table).1 ≡ true)
    × ((allocproc services (record boot { table = (kill 0 boot.table).0 })).0 ≡ some 1)
    × (((allocproc services (record boot { table = (kill 0 boot.table).0 })).1.table 1).killed
        ≡ true)
kill_unborn_example =
    kill_unborn services 0 1 boot (omega arith) refl
      (λ m l e. omega (arith, ap (λ (p : Proc). p.pid) (sym (first_slot m l)) ∙ e)) refl
      (λ m l e.
        ground
          (arith, ap (λ (p : Proc). is_running p.state) (sym (first_slot m l)) ∙ ap is_running e))
      (omega arith)

-- fork gives the child the next pid and returns it; wait returns it again.
fork_runs : (fork services 0 boot).0 ≡ some 2
unfolding fork
fork_runs = refl

wait_reaps : (wait services 0 (record forked { table = child_gone })).1 ≡ reaped 2
unfolding wait allocproc fork_into exit_table wakeup1
wait_reaps = refl
