-- ===== src/Fs/Dinode.antt =====
-- struct dinode in its block: iupdate, and the part of ilock that reads it.
pub mod Layout
pub mod Update
use cmpt.Prelude.{ℕ, zero, suc, ◌+◌, ◌*◌, ◌/◌, ◌%◌, Bool, true, false, ◌==◌, if◌then◌else◌, update}
use cmpt.Disk.{Block, word, set_word, half, set_half}
use cmpt.Fs.{
  State, Inode, Run, done, panic, M, and_then, ◌>>=◌, ◌>>◌, pure, bread, log_write, set_inode, ipb,
  ndirect, iblock,
}

-- memmove(dip->addrs, ip->addrs, sizeof(ip->addrs)) by words, from word j of addrs on
put_addrs : ℕ → ℕ → ℕ → (ℕ → ℕ) → Block → Block
put_addrs zero j base addrs a = a
put_addrs (suc n) j base addrs a = put_addrs n (j + 1) base addrs (set_word a (base + j) (addrs j))

-- The fields of an inode, written to the k-th struct dinode of a block.
pub write_dinode : ℕ → Inode → Block → Block
unfolding put_addrs
write_dinode k i a =
    let h = k * 32 in
    let b =
      set_half (set_half (set_half (set_half a h i.type) (h + 1) i.major) (h + 2) i.minor) (h + 3)
        i.nlink in
    put_addrs (ndirect + 1) 0 (k * 16 + 3) i.addrs (set_word b (k * 16 + 2) i.size)

-- The fields of an inode, read from there.
pub read_dinode : ℕ → Block → Inode → Inode
read_dinode k a i = record i {
  type = half a (k * 32);
  major = half a (k * 32 + 1);
  minor = half a (k * 32 + 2);
  nlink = half a (k * 32 + 3);
  size = word a (k * 16 + 2);
  addrs = λ j. word a (k * 16 + 3 + j);
}

pub iupdate : ℕ → M (Unit {0})
unfolding write_dinode
iupdate ip s =
    let i = s.icache ip in
    let bno = iblock i.inum s.sb in log_write bno (write_dinode (i.inum % ipb) i (s.view bno)) s

-- ilock behind its wait
pub load_inode : ℕ → M (Unit {0})
unfolding read_dinode
load_inode ip s =
    let i = s.icache ip in
    if i.valid
    then done tt s
    else (let i' = record (read_dinode (i.inum % ipb) (s.view (iblock i.inum s.sb)) i) {
      valid = true;
    } in
        if i'.type == 0 then panic else done tt (record s { icache = update s.icache ip i' }))
