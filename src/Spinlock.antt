-- ===== src/Spinlock.antt =====
-- xv6-public/spinlock.c: a spin lock between processors, as interleaved steps, each of one read,
-- one write or one xchg of the lock. Processors are numbered, and the cpu field of a lock is the
-- number and one, with 0 for none. What getcallerpcs records for debugging is left out. The count
-- ncli stays far below the largest int.
pub mod Nesting
pub mod Agreement
pub mod Steps
pub mod Exclusion
mod Examples
use cmpt.Prelude.{
  ℕ, zero, suc, ◌+◌, ◌-◌, Bool, true, false, not, ◌&&◌, Option, none, some, List, [], ◌∷◌, ◌==◌,
  ltb, if◌then◌else◌, update,
}

-- Where a processor stands
pub data Pc : Type 0 where
  outside : Pc
  looks_locked : Pc  -- in acquire, before holding's read of locked
  looks_cpu : Pc  -- and before its read of cpu
  spins : Pc  -- before the xchg of acquire
  signs : Pc  -- before lk->cpu = cpu
  inside : Pc  -- between acquire and release
  rechecks_locked : Pc  -- in release, before holding's reads
  rechecks_cpu : Pc
  clears : Pc  -- before lk->cpu = 0
  unlocks : Pc  -- before the xchg of release
  leaves : Pc  -- before popcli
  panics : Pc

-- struct cpu, as far as spinlock.c uses it, with the interrupt flag
pub record Cpu : Type 0 where
  pub pc : Pc
  pub interrupts : Bool
  pub ncli : ℕ
  pub intena : Bool

-- struct spinlock
pub record Spinlock : Type 0 where
  pub locked : Bool
  pub cpu : ℕ

pub record State : Type 0 where
  pub lock : Spinlock
  pub cpus : ℕ → Cpu

-- initlock
abbrev pub initlock : Spinlock
initlock = record { locked = false; cpu = 0 }

pub pushcli : Cpu → Cpu
pushcli x = record x {
  interrupts = false;
  ncli = x.ncli + 1;
  intena = if x.ncli == 0 then x.interrupts else x.intena;
}

-- popcli, with `none` for its panics
pub popcli : Cpu → Option Cpu
popcli x =
    if x.interrupts
    then none
    else if x.ncli == 0
    then none
    else some (record x { ncli = x.ncli - 1; interrupts = (x.ncli - 1 == 0) && x.intena })

-- the last step of release
abbrev pub leave : Cpu → Cpu
leave x = elim (popcli x) [ none ↦ record x { pc = panics } | some y ↦ record y { pc = outside } ]

abbrev pub set_cpu : ℕ → Cpu → State → State
set_cpu c x s = record s { cpus = update s.cpus c x }

-- One step of processor c. From outside it goes to acquire, and from inside to release.
pub step : ℕ → State → State
unfolding pushcli popcli
step c s =
    let x = s.cpus c in
    let go : Pc → State = λ p. set_cpu c (record x { pc = p }) s in
    elim x.pc [
      | outside ↦ set_cpu c (record (pushcli x) { pc = looks_locked }) s
      | looks_locked ↦ go (if s.lock.locked then looks_cpu else spins)
      | looks_cpu ↦ go (if s.lock.cpu == c + 1 then panics else spins)
      | spins ↦
          if s.lock.locked then s else record (go signs) { lock = record s.lock { locked = true } }
      | signs ↦ record (go inside) { lock = record s.lock { cpu = c + 1 } }
      | inside ↦ go rechecks_locked
      | rechecks_locked ↦ go (if s.lock.locked then rechecks_cpu else panics)
      | rechecks_cpu ↦ go (if s.lock.cpu == c + 1 then clears else panics)
      | clears ↦ record (go unlocks) { lock = record s.lock { cpu = 0 } }
      | unlocks ↦ record (go leaves) { lock = record s.lock { locked = false } }
      | leaves ↦ set_cpu c (leave x) s
      | panics ↦ s
    ]

-- What happens next: a step of a processor, or a processor outside of every critical section sets
-- its interrupt flag.
pub data Event : Type 0 where
  runs : ℕ → Event
  sets : ℕ → Bool → Event

pub happen : Event → State → State
unfolding step
happen (runs c) s = step c s
happen (sets c b) s = elim (s.cpus c).pc [
  | outside ↦ if (s.cpus c).ncli == 0 then set_cpu c (record (s.cpus c) { interrupts = b }) s else s
  | _ ↦ s
]

pub history : List Event → State → State
unfolding happen
history [] s = s
history (e ∷ es) s = history es (happen e s)
