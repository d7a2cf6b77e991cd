-- ===== src/Fs.antt =====
-- xv6-public/fs.c, fs.h, file.h: the file system over the blocks that a transaction sees. A block
-- read and a log_write act on `view`, which is what Log shows of them: log_write changes the
-- reader's view of one block, in a transaction that has room; that log_write panics elsewhere is
-- not in this model. The spin lock of the inode cache is the atomicity of a step, and
-- what bio.c locks by B_BUSY no other process touches meanwhile.
pub mod Rules
pub mod Bits
pub mod Bitmap
pub mod Dinode
pub mod Icache
pub mod Content
pub mod Directory
pub mod Path
mod Examples
use cmpt.Prelude.{
  ℕ, zero, suc, ◌+◌, ◌-◌, ◌*◌, ◌/◌, ◌%◌, ◌^◌, Bool, true, false, Option, none, some, List, [], ◌∷◌,
  ◌==◌, ltb, if◌then◌else◌, update,
}
use cmpt.Disk.{Block, Disk, word}

-- BSIZE
abbrev pub bsize : ℕ
bsize = 512

-- BPB
abbrev pub bpb : ℕ
bpb = bsize * 8

-- NDIRECT
abbrev pub ndirect : ℕ
ndirect = 12

-- NINDIRECT
abbrev pub nindirect : ℕ
nindirect = bsize / 4

-- MAXFILE
abbrev pub maxfile : ℕ
maxfile = ndirect + nindirect

-- IPB
abbrev pub ipb : ℕ
ipb = bsize / 64

-- NINODE
abbrev pub ninode : ℕ
ninode = 50

-- NDEV
abbrev pub ndev : ℕ
ndev = 10

-- T_DIR and T_DEV
abbrev pub t_dir : ℕ
t_dir = 1

abbrev pub t_dev : ℕ
t_dev = 3

-- struct superblock
pub record SuperBlock : Type 0 where
  pub size : ℕ
  pub nblocks : ℕ
  pub ninodes : ℕ
  pub nlog : ℕ
  pub logstart : ℕ
  pub inodestart : ℕ
  pub bmapstart : ℕ

-- struct inode, its flags as two Booleans; a short is its 16 bits
pub record Inode : Type 0 where
  pub dev : ℕ
  pub inum : ℕ
  pub ref : ℕ
  pub busy : Bool
  pub valid : Bool
  pub type : ℕ
  pub major : ℕ
  pub minor : ℕ
  pub nlink : ℕ
  pub size : ℕ
  pub addrs : ℕ → ℕ

pub record State : Type 0 where
  pub view : Disk
  pub sb : SuperBlock
  pub icache : ℕ → Inode

-- BBLOCK
abbrev pub bblock : ℕ → SuperBlock → ℕ
bblock b sb = b / bpb + sb.bmapstart

-- IBLOCK
abbrev pub iblock : ℕ → SuperBlock → ℕ
iblock i sb = i / ipb + sb.inodestart

-- How a call ends. A pointer to an inode is its index in the cache.
pub data Run (A : Type 0) : Type 0 where
  done : A → State → Run A
  no_blocks : State → Run A  -- the panic of balloc
  panic : Run A
  sleeps : State → Run A  -- on a busy inode
  unfinished : Run A  -- a loop with too little fuel

abbrev pub M : Type 0 → Type 0
M A = State → Run A

abbrev pub and_then : {A B : Type 0} → Run A → (A → M B) → Run B
and_then (done a s) f = f a s
and_then (no_blocks s) f = no_blocks s
and_then panic f = panic
and_then (sleeps s) f = sleeps s
and_then unfinished f = unfinished

infixl 5 ◌>>=◌ ◌>>◌
abbrev pub ◌>>=◌ : {A B : Type 0} → M A → (A → M B) → M B
◌>>=◌ m f s = and_then (m s) f

abbrev pub ◌>>◌ : {B : Type 0} → M (Unit {0}) → M B → M B
m >> k = m >>= λ _. k

abbrev pub pure : {A : Type 0} → A → M A
pure = done

abbrev pub get : M State
get s = done s s

-- bread, and brelse that follows it
abbrev pub bread : ℕ → M Block
bread b s = done (s.view b) s

-- What fs.c relies on of log_write, for the buffer of block b with its new bytes, in a transaction
-- that has room. The function itself, with its panics and the log, is log_write of Log.
abbrev pub log_write : ℕ → Block → M (Unit {0})
log_write b a s = done tt (record s { view = update s.view b a })

abbrev pub set_inode : ℕ → Inode → M (Unit {0})
set_inode ip i s = done tt (record s { icache = update s.icache ip i })

-- The words of the super block.
abbrev pub superblock_of : Block → SuperBlock
superblock_of a = record {
  size = word a 0;
  nblocks = word a 1;
  ninodes = word a 2;
  nlog = word a 3;
  logstart = word a 4;
  inodestart = word a 5;
  bmapstart = word a 6;
}

-- readsb(dev, &sb)
pub readsb : M (Unit {0})
readsb s = done tt (record s { sb = superblock_of (s.view 1) })

-- bzero
pub bzero : ℕ → M (Unit {0})
bzero bno = log_write bno (λ _. 0)
