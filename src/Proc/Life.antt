-- ===== src/Proc/Life.antt =====
-- The life of a process: allocproc, fork, exit and wait.
pub mod Passed
pub mod Exit
pub mod Family
pub mod Keeps
pub mod NoLost
pub mod Kill
pub mod Wait
pub mod Fork
pub mod Steps
mod Examples
use cmpt.Prelude.{
  ℕ, zero, suc, ◌+◌, ◌%◌, ◌^◌, Bool, true, false, not, ◌&&◌, ◌||◌, Option, none, some, ◌==◌, ltb,
  if◌then◌else◌, update,
}
use cmpt.Proc.{
  Proc, Table, ProcState, unused, embryo, sleeping, runnable, zombie, nproc, is_unused, is_zombie,
  is_slot, for_slots, find_slot, wakeup1, sleep,
}
use cmpt.Strings.{safestrcpy}
use cmpt.Proc.Services.{Services, Kernel}

-- NOFILE
abbrev pub nofile : ℕ
nofile = 16

-- what wait's scan finds
pub data Scan : Type 0 where
  dead : ℕ → Scan
  alive : (havekids : Bool) → Scan

-- wait's loop over the table, for k slots from i on
pub scan : ℕ → ℕ → ℕ → Bool → Table → Scan
scan me zero i havekids t = alive havekids
scan me (suc k) i havekids t =
    let child = is_slot (t i).parent me in
    let rest = scan me k (i + 1) (if child then true else havekids) t in
    if child && is_zombie (t i).state then dead i else rest

-- How a run of wait ends.
pub data WaitEnd : Type 0 where
  reaped : ℕ → WaitEnd
  childless : WaitEnd
  asleep : WaitEnd

module _ {R : Type 0} (v : Services R) where
  -- allocproc under ptable.lock: a slot and its pid
  pub claim_slot : Kernel R → Option ℕ × Kernel R
  unfolding find_slot
  claim_slot k = elim (find_slot nproc 0 (λ p. is_unused p.state) k.table) [
    | none ↦ (none, k)
    | some i ↦ (
      some i,
      record k {
        table = update k.table i (record (k.table i) { state = embryo; pid = k.nextpid });
        nextpid = (k.nextpid + 1) % 2 ^ 32;
      },
    )
  ]

  -- allocproc behind release(&ptable.lock): the stack of slot i
  pub give_stack : ℕ → Kernel R → Option ℕ × Kernel R
  give_stack i k =
      let (page, r) = v.kalloc k.rest in
      let with_stack = record (k.table i) { kstack = page } in
      if page == 0
      then (
        none,
        record k { table = update k.table i (record with_stack { state = unused }); rest = r },
      )
      else (some i, record k { table = update k.table i with_stack; rest = r })

  -- allocproc, the two parts one after the other: the slot, if there is one and a page for its
  -- stack.
  pub allocproc : Kernel R → Option ℕ × Kernel R
  unfolding claim_slot give_stack
  allocproc k =
      let (o, k') = claim_slot k in elim o [ none ↦ (none, k') | some i ↦ give_stack i k' ]

  -- fork's loop over the open files, k rounds from fd on; the new descriptors and the state
  dup_files : ℕ → ℕ → (ℕ → ℕ) → (ℕ → ℕ) → R → (ℕ → ℕ) × R
  dup_files zero fd from to r = (to, r)
  dup_files (suc k) fd from to r =
      if from fd == 0
      then dup_files k (fd + 1) from to r
      else dup_files k (fd + 1) from (update to fd (from fd)) (v.filedup (from fd) r)

  -- fork behind a successful allocproc, of the child's slot i
  pub fork_into : ℕ → ℕ → Kernel R → Option ℕ × Kernel R
  fork_into me i k =
      let me_p = k.table me in
      let np = k.table i in
      let (pgdir, r) = v.copyuvm me_p.pgdir me_p.sz k.rest in
      if pgdir == 0
      then (
        none,
        record k {
          table = update k.table i (record np { pgdir = pgdir; kstack = 0; state = unused });
          rest = v.kfree np.kstack r;
        },
      )
      else (let (files, r') = dup_files nofile 0 me_p.ofile np.ofile r in
          (
            some np.pid,
            record k {
              table = update k.table i (record np {
                sz = me_p.sz;
                pgdir = pgdir;
                state = runnable;
                parent = some me;
                tf = record me_p.tf { eax = 0 };
                ofile = files;
                cwd = me_p.cwd;
                name = safestrcpy 16 me_p.name np.name;
              });
              rest = v.idup me_p.cwd r';
            },
          ))

  -- fork: the child's pid, or `none` for -1
  pub fork : ℕ → Kernel R → Option ℕ × Kernel R
  unfolding allocproc fork_into
  fork me k = let (o, k') = allocproc k in elim o [ none ↦ (none, k') | some i ↦ fork_into me i k' ]

  -- exit's loop over the open files
  close_files : ℕ → ℕ → (ℕ → ℕ) → R → (ℕ → ℕ) × R
  close_files zero fd files r = (files, r)
  close_files (suc k) fd files r =
      if files fd == 0
      then close_files k (fd + 1) files r
      else close_files k (fd + 1) (update files fd 0) (v.fileclose (files fd) r)

  -- exit before it takes ptable.lock; `none` is the panic of init.
  pub exit_files : ℕ → ℕ → Kernel R → Option (Kernel R)
  unfolding close_files
  exit_files init me k =
      if me == init
      then none
      else (let (files, r) = close_files nofile 0 (k.table me).ofile k.rest in
          some (record k {
            table = update k.table me (record (k.table me) { ofile = files; cwd = 0 });
            rest = v.put_cwd (k.table me).cwd r;
          }))

  -- the channel of a `struct proc*`
  pub chan_of : Option ℕ → ℕ
  chan_of none = 0
  chan_of (some i) = v.slot_addr i

  -- the body of exit's loop: an abandoned child goes to init
  pub abandon : ℕ → ℕ → ℕ → Table → Table
  abandon init me i t =
      if is_slot (t i).parent me
      then (let t' = update t i (record (t i) { parent = some init }) in
          if is_zombie (t i).state then wakeup1 (v.slot_addr init) t' else t')
      else t

  -- exit from its acquire of ptable.lock to sched
  pub exit_table : ℕ → ℕ → Table → Table
  unfolding chan_of abandon for_slots
  exit_table init me t =
      let t₁ = wakeup1 (chan_of (t me).parent) t in
      let t₂ = for_slots nproc 0 (abandon init me) t₁ in
      update t₂ me (record (t₂ me) { state = zombie })

  pub wait : ℕ → Kernel R → Kernel R × WaitEnd
  unfolding scan sleep
  wait me k = elim (scan me nproc 0 false k.table) [
    | dead i ↦
        let p = k.table i in
        (
          record k {
            table = update k.table i (record p {
              kstack = 0;
              state = unused;
              pid = 0;
              parent = none;
              name = update p.name 0 0;
              killed = false;
            });
            rest = v.freevm p.pgdir (v.kfree p.kstack k.rest);
          },
          reaped p.pid,
        )
    | alive havekids ↦
        if not havekids || (k.table me).killed
        then (k, childless)
        else (record k { table = sleep me (v.slot_addr me) k.table }, asleep)
  ]
