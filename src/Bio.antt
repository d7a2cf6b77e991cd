-- ===== src/Bio.antt =====
-- xv6-public/bio.c: the cache of disk blocks, with the disk in memory of memide.c. A pointer to a
-- struct buf is its number, and bcache.head has the number NBUF. The lock bcache.lock is held from
-- the beginning of a call to its end or its sleep, so a run is one step.
pub mod Chain
pub mod Ring
pub mod Scans
pub mod Getting
pub mod Reading
pub mod ReadBack
mod Examples
use cmpt.Prelude.{
  ℕ, zero, suc, ◌+◌, ◌-◌, ◌^◌, Bool, true, false, not, ◌&&◌, ◌||◌, Option, none, some, List, [],
  ◌∷◌, ◌==◌, ltb, leb, if◌then◌else◌, update,
}
use cmpt.Disk.{Block, Disk}

-- NBUF
abbrev pub nbuf : ℕ
nbuf = 30

-- The struct buf without its links and qnext; busy, valid and dirty are its flags.
pub record Buf : Type 0 where
  pub busy : Bool
  pub valid : Bool
  pub dirty : Bool
  pub dev : ℕ
  pub blockno : ℕ
  pub bytes : Block

-- bcache, with the links of its bufs and of head
pub record Bcache : Type 0 where
  pub buf : ℕ → Buf
  pub prev : ℕ → ℕ
  pub next : ℕ → ℕ

-- &bcache.head
abbrev pub head : ℕ
head = nbuf

-- -1 as a `uint`
abbrev pub no_dev : ℕ
no_dev = 2 ^ 32 - 1

-- b becomes the first buf after head.
pub link_first : ℕ → Bcache → Bcache
link_first b c =
    let c1 = record c { next = update c.next b (c.next head); prev = update c.prev b head } in
    let c2 = record c1 { prev = update c1.prev (c1.next head) b } in
    record c2 { next = update c2.next head b }

-- b is taken out of the list.
pub unlink : ℕ → Bcache → Bcache
unlink b c =
    let c1 = record c { prev = update c.prev (c.next b) (c.prev b) } in
    record c1 { next = update c1.next (c1.prev b) (c1.next b) }

-- binit's loop, with n bufs from b on
pub init_from : ℕ → ℕ → Bcache → Bcache
unfolding link_first
init_from zero b c = c
init_from (suc n) b c =
    init_from n (b + 1)
      (link_first b (record c { buf = update c.buf b (record (c.buf b) { dev = no_dev }) }))

pub binit : Bcache → Bcache
unfolding init_from
binit c =
    init_from nbuf 0 (record c { prev = update c.prev head head; next = update c.next head head })

-- The end of bget's first loop, from b on; `lost` is a lack of fuel.
pub data Lookup : Type 0 where
  cached : ℕ → Lookup
  held : ℕ → Lookup  -- it is busy
  not_cached : Lookup
  lost : Lookup

pub find_cached : ℕ → ℕ → ℕ → ℕ → Bcache → Lookup
find_cached zero b dev blockno c = lost
find_cached (suc n) b dev blockno c =
    let rest = find_cached n (c.next b) dev blockno c in
    if b == head
    then not_cached
    else if (c.buf b).dev == dev && (c.buf b).blockno == blockno
    then (if not (c.buf b).busy then cached b else held b)
    else rest

-- The second loop, whose result is `held` for no buf
pub find_clean : ℕ → ℕ → Bcache → Lookup
find_clean zero b c = lost
find_clean (suc n) b c =
    let rest = find_clean n (c.prev b) c in
    if b == head
    then not_cached
    else if not (c.buf b).busy && not (c.buf b).dirty
    then cached b
    else rest

-- b->flags |= B_BUSY
abbrev pub make_busy : Buf → Buf
make_busy b = record b { busy = true }

-- The recycling of a buf
abbrev pub recycled : ℕ → ℕ → Buf → Buf
recycled dev blockno b = record b {
  dev = dev;
  blockno = blockno;
  busy = true;
  valid = false;
  dirty = false;
}

-- What bget does: it returns a buf, sleeps on one, or panics.
pub data Get : Type 0 where
  got : ℕ → Bcache → Get
  asleep : ℕ → Get
  no_buffers : Get
  unfinished : Get

-- The buf that is returned, from what the two loops find
pub take_buf : ℕ → ℕ → Bcache → Lookup → Lookup → Get
take_buf dev blockno c (cached b) _ =
    got b (record c { buf = update c.buf b (make_busy (c.buf b)) })
take_buf dev blockno c (held b) _ = asleep b
take_buf dev blockno c not_cached (cached b) =
    got b (record c { buf = update c.buf b (recycled dev blockno (c.buf b)) })
take_buf dev blockno c not_cached (held b) = unfinished
take_buf dev blockno c not_cached not_cached = no_buffers
take_buf dev blockno c not_cached lost = unfinished
take_buf dev blockno c lost _ = unfinished

pub bget : ℕ → ℕ → Bcache → Get
bget dev blockno c =
    take_buf dev blockno c (find_cached (suc nbuf) (c.next head) dev blockno c)
      (find_clean (suc nbuf) (c.prev head) c)

-- The disk of memide.c: disksize, and memdisk by its blocks
pub record MemDisk : Type 0 where
  pub disksize : ℕ
  pub memdisk : Disk

-- iderw of memide.c; `none` is a panic.
pub iderw : Buf → MemDisk → Option (Buf × MemDisk)
iderw b d =
    if not b.busy
    then none
    else if b.valid && not b.dirty
    then none
    else if not (b.dev == 1)
    then none
    else if leb d.disksize b.blockno
    then none
    else if b.dirty
    then some (
      record b { dirty = false; valid = true },
      record d { memdisk = update d.memdisk b.blockno b.bytes },
    )
    else some (record b { bytes = d.memdisk b.blockno; valid = true }, d)

-- bread after its call of bget: `none` is a panic, `asleep` a sleep of bget.
pub read_if_new : MemDisk → Get → Option Get
read_if_new d (got b c) = if (c.buf b).valid then some (got b c) else (elim (iderw (c.buf b) d) [
  | none ↦ none
  | some (x, _) ↦ some (got b (record c { buf = update c.buf b x }))
])
read_if_new d (asleep b) = some (asleep b)
read_if_new d no_buffers = none
read_if_new d unfinished = some unfinished

pub bread : ℕ → ℕ → Bcache → MemDisk → Option Get
bread dev blockno c d = read_if_new d (bget dev blockno c)

pub bwrite : ℕ → Bcache → MemDisk → Option (Bcache × MemDisk)
bwrite b c d =
    if not (c.buf b).busy then none else (elim (iderw (record (c.buf b) { dirty = true }) d) [
      | none ↦ none
      | some (x, d') ↦ some (record c { buf = update c.buf b x }, d')
    ])

-- brelse, whose wakeup has no state here
pub brelse : ℕ → Bcache → Option Bcache
unfolding unlink link_first
brelse b c =
    if not (c.buf b).busy
    then none
    else (let c' = link_first b (unlink b c) in
        some (record c' { buf = update c'.buf b (record (c'.buf b) { busy = false }) }))
