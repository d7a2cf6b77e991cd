-- ===== src/Syscall.antt =====
-- xv6-public/syscall.c: the arguments of a system call in the memory of the process, and the
-- dispatch. `none` is the result -1, and an int is its 32 bits. A string's place and length stand
-- for the pointer that fetchstr sets and its result.
pub mod Arguments
mod Examples
use cmpt.Prelude.{
  ℕ, zero, suc, ◌+◌, ◌-◌, ◌*◌, ◌%◌, ◌^◌, Bool, true, false, ◌&&◌, ◌||◌, Option, none, some, ◌==◌,
  ltb, leb, if◌then◌else◌,
}

-- What the calls use of the process: its size, its stack pointer in the trap frame, and its bytes
pub record User : Type 0 where
  pub sz : ℕ
  pub esp : ℕ
  pub mem : ℕ → ℕ

-- `*(int*)(addr)`
abbrev pub int_at : (ℕ → ℕ) → ℕ → ℕ
int_at mem addr =
    mem addr + 256 * mem (addr + 1) + 65536 * mem (addr + 2) + 16777216 * mem (addr + 3)

pub fetchint : User → ℕ → Option ℕ
fetchint p addr =
    if leb p.sz addr || ltb p.sz ((addr + 4) % 2 ^ 32) then none else some (int_at p.mem addr)

-- fetchstr's loop, for the n bytes from s on, k bytes behind the beginning
string_end : ℕ → ℕ → ℕ → (ℕ → ℕ) → Option ℕ
string_end zero s k mem = none
string_end (suc n) s k mem =
    let rest = string_end n (s + 1) (k + 1) mem in if mem s == 0 then some k else rest

pub fetchstr : User → ℕ → Option ℕ
unfolding string_end
fetchstr p addr = if leb p.sz addr then none else string_end (p.sz - addr) addr 0 p.mem

pub argint : User → ℕ → Option ℕ
unfolding fetchint
argint p n = fetchint p ((p.esp + 4 + 4 * n) % 2 ^ 32)

-- argptr for a block of `size` bytes
pub argptr : User → ℕ → ℕ → Option ℕ
argptr p n size = elim (argint p n) [
  | none ↦ none
  | some i ↦ if leb p.sz i || ltb p.sz ((i + size) % 2 ^ 32) then none else some i
]

-- argstr: where the string stands, and its length
pub argstr : User → ℕ → Option (ℕ × ℕ)
argstr p n = elim (argint p n) [
  | none ↦ none
  | some addr ↦ elim (fetchstr p addr) [ none ↦ none | some len ↦ some (addr, len) ]
]

-- NELEM(syscalls)
abbrev pub nelem : ℕ
nelem = 22

-- syscall: the new eax. The handlers of sysproc.c and sysfile.c are a parameter, which acts on the
-- rest of the kernel.
pub syscall : {S : Type 0} → (ℕ → Option (S → ℕ × S)) → ℕ → S → ℕ × S
syscall syscalls num s =
    if ltb 0 num && ltb num nelem
    then (elim (syscalls num) [ none ↦ (2 ^ 32 - 1, s) | some handler ↦ handler s ])
    else (2 ^ 32 - 1, s)
