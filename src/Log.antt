-- ===== src/Log.antt =====
-- xv6-public/log.c: the write-ahead log, over a disk that can lose power between two writes.
-- The buffer cache shows here as its effect on contents: a buffer with B_DIRTY is pinned and holds
-- newer bytes than the disk (`dirty`), any other buffer equals its block. Of bio.c, `bread` yields
-- the pinned bytes or else the disk's, and `bwrite` puts bytes on the disk, which clears B_DIRTY.
-- `power` counts the disk writes that still happen before the machine stops: the write after the
-- last one does not happen, and only the disk is left.
pub mod Rules
pub mod Head
pub mod Recover
pub mod Reboot
pub mod Commit
pub mod Crash
pub mod Absorb
pub mod Effects
pub mod Reserve
mod Examples
use cmpt.Prelude.{
  ℕ, zero, suc, ◌+◌, ◌-◌, ◌*◌, ◌%◌, ◌^◌, ◌<◌, ◌≡◌, Bool, true, false, ◌||◌, Option, none, some,
  ◌==◌, ltb, leb, if◌then◌else◌, update,
}
use cmpt.Disk.{Block, Disk, word, set_word}

-- MAXOPBLOCKS
abbrev pub max_op_blocks : ℕ
max_op_blocks = 10

-- LOGSIZE
abbrev pub log_size : ℕ
log_size = max_op_blocks * 3

-- struct logheader
pub record LogHeader : Type 0 where
  pub n : ℕ
  pub block : ℕ → ℕ

-- struct log, less its lock and `dev`
pub record Log : Type 0 where
  pub start : ℕ
  pub size : ℕ
  pub outstanding : ℕ
  pub committing : Bool
  pub lh : LogHeader

pub record State : Type 0 where
  pub disk : Disk
  pub dirty : ℕ → Option Block
  pub power : ℕ
  pub log : Log

pub data Run (A : Type 0) : Type 0 where
  done : A → State → Run A
  crashed : Disk → Run A  -- the power failed
  panic : Run A
  underflow : Run A  -- `outstanding` would drop below 0

abbrev pub M : Type 0 → Type 0
M A = State → Run A

abbrev pub pure : {A : Type 0} → A → M A
pure = done

abbrev pub and_then : {A B : Type 0} → Run A → (A → M B) → Run B
and_then (done a s) f = f a s
and_then (crashed d) f = crashed d
and_then panic f = panic
and_then underflow f = underflow

infixl 5 ◌>>=◌ ◌>>◌
abbrev pub ◌>>=◌ : {A B : Type 0} → M A → (A → M B) → M B
◌>>=◌ m f s = and_then (m s) f

abbrev pub ◌>>◌ : {B : Type 0} → M (Unit {0}) → M B → M B
m >> k = m >>= λ _. k

-- The contents of a block as a reader sees them.
pub view : State → ℕ → Block
view s b = elim (s.dirty b) [ none ↦ s.disk b | some a ↦ a ]

-- bread
pub bread : ℕ → M Block
bread b s = done (view s b) s

-- bwrite
pub bwrite : ℕ → Block → M (Unit {0})
bwrite b a s = elim s.power [
  | zero ↦ crashed s.disk
  | suc k ↦
      done tt (record s { disk = update s.disk b a; dirty = update s.dirty b none; power = k })
]

-- for (i = from; i < from + rounds; i++) body(i);
pub for_from : ℕ → ℕ → (ℕ → M (Unit {0})) → M (Unit {0})
for_from zero i body = pure tt
for_from (suc k) i body = body i >> for_from k (i + 1) body

-- The rounds of `for (i = 0; i < n; i++)` for an `int` of the bit pattern `n`.
pub rounds : ℕ → ℕ
rounds n = if ltb n (2 ^ 31) then n else 0

abbrev pub set_lh : LogHeader → M (Unit {0})
set_lh h s = done tt (record s { log = record s.log { lh = h } })

-- A round of install_trans: bread, bread, memmove, bwrite, brelse, brelse.
pub install_block : ℕ → M (Unit {0})
install_block tail s =
    (do
      lbuf ← bread (s.log.start + tail + 1)
      _ ← bread (s.log.lh.block tail)
      bwrite (s.log.lh.block tail) lbuf)
      s

pub install_trans : M (Unit {0})
unfolding install_block for_from
install_trans s = for_from (rounds s.log.lh.n) 0 install_block s

-- `log.lh.block[i] = lh->block[i]`, for k rounds from i on
pub read_blocks : ℕ → ℕ → Block → (ℕ → ℕ) → ℕ → ℕ
read_blocks zero i hb block = block
read_blocks (suc k) i hb block = read_blocks k (i + 1) hb (update block i (word hb (i + 1)))

pub read_head : M (Unit {0})
unfolding read_blocks
read_head s =
    (do
      hb ← bread s.log.start
      let n = word hb 0
      set_lh (record { n = n; block = read_blocks (rounds n) 0 hb s.log.lh.block }))
      s

-- `hb->block[i] = log.lh.block[i]`, for k rounds from i on
pub write_blocks : ℕ → ℕ → (ℕ → ℕ) → Block → Block
write_blocks zero i block hb = hb
write_blocks (suc k) i block hb = write_blocks k (i + 1) block (set_word hb (i + 1) (block i))

pub write_head : M (Unit {0})
unfolding write_blocks
write_head s =
    (do
      hb ← bread s.log.start
      let h = s.log.lh
      bwrite s.log.start (write_blocks (rounds h.n) 0 h.block (set_word hb 0 h.n)))
      s

-- `log.lh.n = 0`
pub clear_head : M (Unit {0})
clear_head s = set_lh (record s.log.lh { n = 0 }) s

pub recover_from_log : M (Unit {0})
unfolding read_head install_trans clear_head write_head
recover_from_log = do read_head; install_trans; clear_head; write_head

-- A round of write_log.
save_block : ℕ → M (Unit {0})
save_block tail s =
    (do
      _ ← bread (s.log.start + tail + 1)
      from ← bread (s.log.lh.block tail)
      bwrite (s.log.start + tail + 1) from)
      s

pub write_log : M (Unit {0})
unfolding save_block for_from
write_log s = for_from (rounds s.log.lh.n) 0 save_block s

pub commit : M (Unit {0})
unfolding write_log write_head install_trans clear_head
commit s =
    if ltb 0 s.log.lh.n
    then (do write_log; write_head; install_trans; clear_head; write_head) s
    else done tt s

-- The loop of log_write: the first index from i on whose block is b, or the end.
find_block : ℕ → ℕ → (ℕ → ℕ) → ℕ → ℕ
find_block zero i block b = i
find_block (suc k) i block b =
    let rest = find_block k (i + 1) block b in if block i == b then i else rest

-- log_write of the buffer of block b, whose bytes the caller has changed to a.
pub log_write : ℕ → Block → M (Unit {0})
unfolding find_block
log_write b a s =
    let l = s.log in
    let i = find_block l.lh.n 0 l.lh.block b in
    if leb log_size l.lh.n || leb (l.size - 1) l.lh.n
    then panic
    else if ltb l.outstanding 1
    then panic
    else done tt (record s {
      dirty = update s.dirty b (some a);
      log = record l {
        lh = record {
          n = if i == l.lh.n then l.lh.n + 1 else l.lh.n;
          block = update l.lh.block i b;
        };
      };
    })

-- One pass of the loop of begin_op: `false` if it sleeps, with nothing changed.
pub begin_op : Log → Log × Bool
begin_op l =
    if l.committing
    then (l, false)
    else if ltb log_size (l.lh.n + (l.outstanding + 1) * max_op_blocks)
    then (l, false)
    else (record l { outstanding = l.outstanding + 1 }, true)

abbrev set_log : Log → M (Unit {0})
set_log l s = done tt (record s { log = l })

-- end_op; the commit runs without the lock, with `committing` set.
pub end_op : M (Unit {0})
unfolding commit
end_op s =
    let l = s.log in
    if l.outstanding == 0
    then underflow
    else if l.committing
    then panic
    else if l.outstanding == 1
    then (do
      set_log (record l { outstanding = 0; committing = true })
      commit
      λ t. set_log (record t.log { committing = false }) t)
        s
    else set_log (record l { outstanding = l.outstanding - 1 }) s

-- What is in memory after power-on: nothing pinned, and a log that initlog sets up.
pub boot : Disk → ℕ → ℕ → ℕ → State
boot d power start size = record {
  disk = d;
  dirty = λ _. none;
  power = power;
  log = record {
    start = start;
    size = size;
    outstanding = 0;
    committing = false;
    lh = record { n = 0; block = λ _. 0 };
  };
}
