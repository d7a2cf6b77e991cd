-- ===== src/Proc.antt =====
-- xv6-public/proc.c: the process table. A function runs under ptable.lock from its acquire, or from
-- its return from sleep, to its release or its next sleep, so each such run is atomic. What the
-- table's functions call in other files (kalloc.c, vm.c, file.c, fs.c) is a record of operations
-- over the rest of the kernel's state.
pub mod Loops
pub mod Services
pub mod Life
use cmpt.Prelude.{
  ℕ, zero, suc, ◌+◌, ◌%◌, ◌^◌, Bool, true, false, not, ◌&&◌, ◌||◌, Option, none, some, ◌==◌, ltb,
  if◌then◌else◌, update,
}

-- NPROC
abbrev pub nproc : ℕ
nproc = 64

-- enum procstate
pub data ProcState : Type 0 where
  unused embryo sleeping runnable running zombie : ProcState

-- struct trapframe: %eax, and the other registers as one value
pub record TrapFrame : Type 0 where
  pub eax : ℕ
  pub others : ℕ

-- struct proc. A pointer is a number, 0 for null; `parent` is the index of a slot. The context,
-- which swtch.S keeps, is left out.
pub record Proc : Type 0 where
  pub sz : ℕ
  pub pgdir : ℕ
  pub kstack : ℕ
  pub state : ProcState
  pub pid : ℕ
  pub parent : Option ℕ
  pub tf : TrapFrame
  pub chan : ℕ
  pub killed : Bool
  pub ofile : ℕ → ℕ
  pub cwd : ℕ
  pub name : ℕ → ℕ

abbrev pub Table : Type 0
Table = ℕ → Proc

abbrev pub is_unused : ProcState → Bool
is_unused unused = true
is_unused _ = false

abbrev pub is_sleeping : ProcState → Bool
is_sleeping sleeping = true
is_sleeping _ = false

abbrev pub is_zombie : ProcState → Bool
is_zombie zombie = true
is_zombie _ = false

abbrev pub is_runnable : ProcState → Bool
is_runnable runnable = true
is_runnable _ = false

abbrev pub is_running : ProcState → Bool
is_running running = true
is_running _ = false

abbrev pub is_slot : Option ℕ → ℕ → Bool
is_slot none i = false
is_slot (some j) i = j == i

-- for(p = ptable.proc; p < &ptable.proc[NPROC]; p++) body(p), for k slots from i on
pub for_slots : ℕ → ℕ → (ℕ → Table → Table) → Table → Table
for_slots zero i body t = t
for_slots (suc k) i body t = for_slots k (i + 1) body (body i t)

-- the first of k slots from i on that passes the test
pub find_slot : ℕ → ℕ → (Proc → Bool) → Table → Option ℕ
find_slot zero i test t = none
find_slot (suc k) i test t =
    let rest = find_slot k (i + 1) test t in if test (t i) then some i else rest

-- the body of wakeup1
wake_slot : ℕ → ℕ → Table → Table
wake_slot chan i t =
    if is_sleeping (t i).state && ((t i).chan == chan)
    then update t i (record (t i) { state = runnable })
    else t

pub wakeup1 : ℕ → Table → Table
unfolding wake_slot for_slots
wakeup1 chan t = for_slots nproc 0 (wake_slot chan) t

-- kill: the table, and whether it returns 0
pub kill : ℕ → Table → Table × Bool
unfolding find_slot
kill pid t = elim (find_slot nproc 0 (λ p. p.pid == pid) t) [
  | none ↦ (t, false)
  | some i ↦ (
    update t i (record (t i) {
      state = if is_sleeping (t i).state then runnable else (t i).state;
      killed = true;
    }),
    true,
  )
]

-- sleep, up to its call of sched, and what it does after it
pub sleep : ℕ → ℕ → Table → Table
sleep me chan t = update t me (record (t me) { chan = chan; state = sleeping })

pub tidy_up : ℕ → Table → Table
tidy_up me t = update t me (record (t me) { chan = 0 })

-- yield, up to its call of sched
pub yield : ℕ → Table → Table
yield me t = update t me (record (t me) { state = runnable })

-- One round of the loop of scheduler: whether it switches to the slot.
pub schedule : ℕ → Table → Option Table
schedule i t =
    if is_runnable (t i).state then some (update t i (record (t i) { state = running })) else none
