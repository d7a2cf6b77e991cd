-- ===== src/Pipe.antt =====
-- xv6-public/pipe.c: the byte ring of a pipe, its writer, its reader and its closing.
-- `sleep` ends a run: the result says that the caller sleeps and with what it goes on, and a
-- caller that is woken runs the same loop again, since the C loops test their condition anew.
-- The lock is held between two sleeps, so a run is atomic. `wakeup` changes no field of the pipe.
pub mod Ring
pub mod Transfer
pub mod History
mod Examples
use cmpt.Prelude.{
  ℕ, zero, suc, ◌+◌, ◌-◌, ◌%◌, ◌^◌, ◌<◌, ◌≤◌, ◌≡◌, Bool, true, false, not, ◌&&◌, ◌||◌, List, [],
  ◌∷◌, ◌==◌, if◌then◌else◌, update,
}

-- PIPESIZE
abbrev pub pipe_size : ℕ
pipe_size = 512

-- `uint` arithmetic
abbrev pub wrap : ℕ → ℕ
wrap n = n % 2 ^ 32

-- struct pipe, less its lock
pub record Pipe : Type 0 where
  pub bytes : ℕ → ℕ
  pub nread : ℕ
  pub nwrite : ℕ
  pub readopen : Bool
  pub writeopen : Bool

-- the fields that pipealloc sets, over a page whose bytes are arbitrary
pub init_pipe : (ℕ → ℕ) → Pipe
init_pipe page = record { bytes = page; nread = 0; nwrite = 0; readopen = true; writeopen = true }

-- `p->data[p->nwrite++ % PIPESIZE] = b`
pub put_byte : ℕ → Pipe → Pipe
put_byte b p = record p {
  bytes = update p.bytes (p.nwrite % pipe_size) b;
  nwrite = wrap (p.nwrite + 1);
}

-- `nread++`
pub skip_byte : Pipe → Pipe
skip_byte p = record p { nread = wrap (p.nread + 1) }

-- How a run of pipewrite ends: it returns n, it returns -1, or it sleeps with bytes left.
pub data WriteEnd : Type 0 where
  wrote : WriteEnd
  refused : WriteEnd
  sleeping : List ℕ → WriteEnd

pub is_full : Pipe → Bool
is_full p = p.nwrite == wrap (p.nread + pipe_size)

pub is_empty : Pipe → Bool
is_empty p = p.nread == p.nwrite

-- pipewrite from `addr[i]` on, until it returns or sleeps; `killed` is proc->killed.
pub pipewrite : Bool → List ℕ → Pipe → Pipe × WriteEnd
unfolding is_full put_byte
pipewrite killed [] p = (p, wrote)
pipewrite killed (b ∷ bs) p =
    let rest = pipewrite killed bs (put_byte b p) in
    if is_full p then (p, if not p.readopen || killed then refused else sleeping (b ∷ bs)) else rest

-- How a run of piperead ends: it returns the bytes that it copied, it returns -1, or it sleeps.
pub data ReadEnd : Type 0 where
  got : List ℕ → ReadEnd
  interrupted : ReadEnd
  waiting : ReadEnd

-- The copying loop of piperead.
pub read_bytes : ℕ → Pipe → Pipe × List ℕ
unfolding is_empty skip_byte
read_bytes zero p = (p, [])
read_bytes (suc n) p =
    let rest = read_bytes n (skip_byte p) in
    if is_empty p then (p, []) else (rest.0, p.bytes (p.nread % pipe_size) ∷ rest.1)

pub piperead : Bool → ℕ → Pipe → Pipe × ReadEnd
unfolding read_bytes is_empty
piperead killed n p =
    if is_empty p && p.writeopen
    then (p, if killed then interrupted else waiting)
    else (let out = read_bytes n p in (out.0, got out.1))

-- pipeclose, and whether it frees the page of the pipe.
pub pipeclose : Bool → Pipe → Pipe × Bool
pipeclose writable p =
    let p' = if writable then record p { writeopen = false } else record p { readopen = false } in
    (p', not p'.readopen && not p'.writeopen)
