-- ===== src/Fs/Content.antt =====
-- The blocks of a file: bmap, itrunc, readi and writei. The loops of readi and writei get at least
-- one byte further in a round, so as many rounds as bytes are fuel enough.
pub mod Data
pub mod Laid
pub mod Growth
pub mod Mapping
pub mod Reading
pub mod Writing
pub mod Rounds
pub mod Storing
mod Examples
use cmpt.Prelude.{
  ℕ, zero, suc, ◌+◌, ◌-◌, ◌*◌, ◌/◌, ◌%◌, ◌^◌, true, false, ◌&&◌, ◌||◌, Option, none, some, List, [],
  ◌∷◌, ◌++◌, ◌==◌, ltb, leb, if◌then◌else◌, update,
}
use cmpt.Disk.{Block, word, set_word}
use cmpt.Fs.{
  Inode, done, panic, unfinished, M, ◌>>=◌, ◌>>◌, pure, bread, log_write, set_inode, bsize, ndirect,
  nindirect, maxfile, ndev, t_dev,
}
use cmpt.Fs.Bitmap.{balloc, bfree}
use cmpt.Fs.Dinode.{iupdate}

-- ip->addrs[n] = addr
abbrev pub set_addr : ℕ → ℕ → ℕ → M (Unit {0})
set_addr ip n addr s =
    set_inode ip (record (s.icache ip) { addrs = update (s.icache ip).addrs n addr }) s

-- if((addr = ip->addrs[n]) == 0) ip->addrs[n] = addr = balloc(ip->dev);
pub addr_of : ℕ → ℕ → M ℕ
addr_of ip n s =
    if (s.icache ip).addrs n == 0
    then (do addr ← balloc; set_addr ip n addr; pure addr) s
    else done ((s.icache ip).addrs n) s

-- The entry bn of the indirect block addr.
pub indirect : ℕ → ℕ → M ℕ
indirect addr bn s =
    let a = s.view addr in
    if word a bn == 0
    then (do new ← balloc; log_write addr (set_word a bn new); pure new) s
    else done (word a bn) s

pub bmap : ℕ → ℕ → M ℕ
unfolding addr_of indirect
bmap ip bn s =
    if ltb bn ndirect
    then addr_of ip bn s
    else if ltb (bn - ndirect) nindirect
    then (do addr ← addr_of ip ndirect; indirect addr (bn - ndirect)) s
    else panic

-- itrunc's loop over the direct blocks, n rounds from i on
free_direct : ℕ → ℕ → ℕ → M (Unit {0})
free_direct zero i ip s = done tt s
free_direct (suc n) i ip s =
    (do
      λ t.
          if (t.icache ip).addrs i == 0
          then done tt t
          else (do bfree ((t.icache ip).addrs i); set_addr ip i 0) t
      free_direct n (i + 1) ip)
      s

-- itrunc's loop over the words of the indirect block, n rounds from j on
free_words : ℕ → ℕ → Block → M (Unit {0})
free_words zero j a s = done tt s
free_words (suc n) j a s =
    (do λ t. if word a j == 0 then done tt t else bfree (word a j) t; free_words n (j + 1) a) s

free_indirect : ℕ → M (Unit {0})
unfolding free_words
free_indirect ip s =
    let addr = (s.icache ip).addrs ndirect in
    if addr == 0
    then done tt s
    else (do free_words nindirect 0 (s.view addr); bfree addr; set_addr ip ndirect 0) s

abbrev set_size : ℕ → ℕ → M (Unit {0})
set_size ip size s = set_inode ip (record (s.icache ip) { size = size }) s

pub itrunc : ℕ → M (Unit {0})
unfolding free_direct free_indirect
itrunc ip = do free_direct ndirect 0 ip; free_indirect ip; set_size ip 0; iupdate ip

-- struct stat
pub record Stat : Type 0 where
  pub dev : ℕ
  pub ino : ℕ
  pub type : ℕ
  pub nlink : ℕ
  pub size : ℕ

pub stati : Inode → Stat
stati i = record { dev = i.dev; ino = i.inum; type = i.type; nlink = i.nlink; size = i.size }

-- devsw: what a device reads into a buffer, or writes; `none` for no function, or for -1
pub record Devices : Type 0 where
  pub reads : ℕ → Option (ℕ → ℕ → M (Option (List ℕ)))
  pub writes : ℕ → Option (ℕ → (ℕ → ℕ) → ℕ → M (Option ℕ))

-- m bytes of a block from byte o on
pub slice : Block → ℕ → ℕ → List ℕ
slice a o zero = []
slice a o (suc m) = a o ∷ slice a (o + 1) m

-- a block with m bytes of src, from byte tot on, put to its byte o
abbrev pub blit : Block → ℕ → ℕ → (ℕ → ℕ) → ℕ → Block
blit a o m src tot j = if leb o j && ltb j (o + m) then src (tot + (j - o)) else a j

-- min(n - tot, BSIZE - off%BSIZE)
abbrev pub chunk : ℕ → ℕ → ℕ
chunk left off = if ltb left (bsize - off % bsize) then left else bsize - off % bsize

-- The loop of readi, with `left` for n - tot: the bytes that it puts to dst.
pub read_from : ℕ → ℕ → ℕ → ℕ → M (List ℕ)
read_from zero left off ip s = if left == 0 then done [] s else unfinished
read_from (suc fuel) left off ip s = elim (left == 0) [
  | true ↦ done [] s
  | false ↦
      (do
        b ← bmap ip (off / bsize)
        a ← bread b
        let m = chunk left off
        rest ← read_from fuel (left - m) (off + m) ip
        pure (slice a (off % bsize) m ++ rest))
        s
]

-- The loop of writei, with `left` for n - tot; it returns the last value of off.
pub write_from : ℕ → ℕ → ℕ → ℕ → ℕ → (ℕ → ℕ) → M ℕ
write_from zero left tot off ip src s = if left == 0 then done off s else unfinished
write_from (suc fuel) left tot off ip src s = elim (left == 0) [
  | true ↦ done off s
  | false ↦
      (do
        b ← bmap ip (off / bsize)
        a ← bread b
        let m = chunk left off
        log_write b (blit a (off % bsize) m src tot)
        write_from fuel (left - m) (tot + m) (off + m) ip src)
        s
]

-- writei behind its loop
pub store_size : ℕ → ℕ → ℕ → M (Unit {0})
store_size ip n last t =
    if ltb 0 n && ltb (t.icache ip).size last
    then (do set_size ip last; iupdate ip) t
    else done tt t

module _ (devsw : Devices) where
  -- readi: the bytes read, or `none` for -1
  pub readi : ℕ → ℕ → ℕ → M (Option (List ℕ))
  unfolding read_from
  readi ip off n s =
      let i = s.icache ip in
      if i.type == t_dev
      then if leb (2 ^ 15) i.major || leb ndev i.major
        then done none s
        else elim (devsw.reads i.major) [ none ↦ done none s | some f ↦ f ip n s ]
      else if ltb i.size off || ltb ((off + n) % 2 ^ 32) off
      then done none s
      else (let m = if ltb i.size (off + n) then i.size - off else n in
          (do bytes ← read_from m m off ip; pure (some bytes)) s)

  -- writei: the count, or `none` for -1
  pub writei : ℕ → (ℕ → ℕ) → ℕ → ℕ → M (Option ℕ)
  unfolding write_from store_size
  writei ip src off n s =
      let i = s.icache ip in
      if i.type == t_dev
      then if leb (2 ^ 15) i.major || leb ndev i.major
        then done none s
        else elim (devsw.writes i.major) [ none ↦ done none s | some f ↦ f ip src n s ]
      else if ltb i.size off || ltb ((off + n) % 2 ^ 32) off
      then done none s
      else if ltb (maxfile * bsize) (off + n)
      then done none s
      else (do last ← write_from n n 0 off ip src; store_size ip n last; pure (some n)) s
