-- ===== src/File.antt =====
-- xv6-public/file.c: the table of open files and their reference counts. The spin lock is the
-- atomicity of a call; what the last fileclose hands to pipe.c or to fs.c is its result.
pub mod Counts
pub mod Sharing
pub mod Transfer
mod Examples
use cmpt.Prelude.{
  ℕ, zero, suc, ◌+◌, ◌-◌, Bool, true, false, Option, none, some, ◌==◌, ltb, if◌then◌else◌, update,
}

-- NFILE
abbrev pub nfile : ℕ
nfile = 100

-- the type of a struct file
pub data FdType : Type 0 where
  fd_none fd_pipe fd_inode : FdType

-- struct file; a pointer is a number
pub record File : Type 0 where
  pub type : FdType
  pub ref : ℕ
  pub readable : Bool
  pub writable : Bool
  pub pipe : ℕ
  pub ip : ℕ
  pub off : ℕ

abbrev pub FileTable : Type 0
FileTable = ℕ → File

-- the loop of filealloc, for k files from i on
find_file : ℕ → ℕ → FileTable → Option ℕ
find_file zero i t = none
find_file (suc k) i t = let rest = find_file k (i + 1) t in if (t i).ref == 0 then some i else rest

pub filealloc : FileTable → Option ℕ × FileTable
unfolding find_file
filealloc t = elim (find_file nfile 0 t) [
  | none ↦ (none, t)
  | some i ↦ (some i, update t i (record (t i) { ref = 1 }))
]

-- filedup; `none` is a panic.
pub filedup : ℕ → FileTable → Option FileTable
filedup i t =
    if ltb (t i).ref 1 then none else some (update t i (record (t i) { ref = (t i).ref + 1 }))

-- What fileclose does behind the table.
pub data Release : Type 0 where
  nothing : Release
  close_pipe : ℕ → Bool → Release
  put_inode : ℕ → Release

-- what is left to do with the file that is closed for the last time
pub release : File → Release
release f = elim f.type [
  | fd_none ↦ nothing
  | fd_pipe ↦ close_pipe f.pipe f.writable
  | fd_inode ↦ put_inode f.ip
]

-- fileclose; `none` is a panic.
pub fileclose : ℕ → FileTable → Option (FileTable × Release)
unfolding release
fileclose i t =
    if ltb (t i).ref 1
    then none
    else if ltb 0 ((t i).ref - 1)
    then some (update t i (record (t i) { ref = (t i).ref - 1 }), nothing)
    else some (update t i (record (t i) { ref = 0; type = fd_none }), release (t i))
