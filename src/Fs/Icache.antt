-- ===== src/Fs/Icache.antt =====
-- The inode cache: iget, idup, ilock, iunlock, iput and ialloc. The wakeup of a process that waits
-- for an inode is Proc's.
pub mod Lookup
pub mod Sharing
use cmpt.Prelude.{
  ℕ, zero, suc, ◌+◌, ◌-◌, ◌*◌, ◌/◌, ◌%◌, true, false, not, ◌&&◌, ◌||◌, Option, none, some, ◌==◌,
  ltb, if◌then◌else◌,
}
use cmpt.Disk.{Block, half, set_half}
use cmpt.Fs.{Inode, panic, sleeps, M, ◌>>◌, pure, log_write, set_inode, ipb, ninode, iblock}
use cmpt.Fs.Dinode.{iupdate, load_inode}
use cmpt.Fs.Content.{itrunc}

-- What iget's loop finds.
pub data Cached : Type 0 where
  cached : ℕ → Cached
  recycled : ℕ → Cached
  nothing_empty : Cached

-- the end of the loop: the slot that it remembered
empty_slot : Option ℕ → Cached
empty_slot none = nothing_empty
empty_slot (some i) = recycled i

-- iget's loop, for n slots from i on
pub find_inode : ℕ → ℕ → Option ℕ → ℕ → ℕ → (ℕ → Inode) → Cached
unfolding empty_slot
find_inode zero i empty dev inum c = empty_slot empty
find_inode (suc n) i empty dev inum c =
    let e : Option ℕ = elim empty [
      | none ↦ if (c i).ref == 0 then some i else none
      | some j ↦ some j
    ] in
    let rest = find_inode n (i + 1) e dev inum c in
    if ltb 0 (c i).ref && (c i).dev == dev && (c i).inum == inum then cached i else rest

pub iget : ℕ → ℕ → M ℕ
unfolding find_inode
iget dev inum s = elim (find_inode ninode 0 none dev inum s.icache) [
  | cached i ↦ (do set_inode i (record (s.icache i) { ref = (s.icache i).ref + 1 }); pure i) s
  | recycled i ↦
      (do
        set_inode i
            (record (s.icache i) { dev = dev; inum = inum; ref = 1; busy = false; valid = false })
        pure i)
        s
  | nothing_empty ↦ panic
]

pub idup : ℕ → M ℕ
idup ip s = (do set_inode ip (record (s.icache ip) { ref = (s.icache ip).ref + 1 }); pure ip) s

-- ilock; `sleeps` while another process has the inode
pub ilock : ℕ → M (Unit {0})
ilock ip s =
    if ltb (s.icache ip).ref 1
    then panic
    else if (s.icache ip).busy
    then sleeps s
    else (do set_inode ip (record (s.icache ip) { busy = true }); load_inode ip) s

pub iunlock : ℕ → M (Unit {0})
iunlock ip s =
    if not (s.icache ip).busy || ltb (s.icache ip).ref 1
    then panic
    else set_inode ip (record (s.icache ip) { busy = false }) s

-- iput's last steps: ip->ref--
drop_ref : ℕ → M (Unit {0})
drop_ref ip s = set_inode ip (record (s.icache ip) { ref = (s.icache ip).ref - 1 }) s

pub iput : ℕ → M (Unit {0})
unfolding drop_ref
iput ip s =
    let i = s.icache ip in
    if i.ref == 1 && i.valid && i.nlink == 0
    then if i.busy
      then panic
      else (do
        set_inode ip (record i { busy = true })
        itrunc ip
        λ t. set_inode ip (record (t.icache ip) { type = 0 }) t
        iupdate ip
        λ t. set_inode ip (record (t.icache ip) { busy = false; valid = false }) t
        drop_ref ip)
          s
    else drop_ref ip s

pub iunlockput : ℕ → M (Unit {0})
unfolding iunlock iput
iunlockput ip = do iunlock ip; iput ip

-- memset(dip, 0, sizeof(*dip)), dip the k-th of its block
abbrev pub clear_dinode : ℕ → Block → Block
clear_dinode k a j = if j / 64 == k then 0 else a j

-- ialloc's loop, for n inodes from inum on
ialloc_from : ℕ → ℕ → ℕ → ℕ → M ℕ
unfolding iget
ialloc_from zero inum dev type s = panic
ialloc_from (suc n) inum dev type s =
    elim (half (s.view (iblock inum s.sb)) (inum % ipb * 32) == 0) [
      | true ↦
          (do
            log_write (iblock inum s.sb) (
                set_half (clear_dinode (inum % ipb) (s.view (iblock inum s.sb))) (inum % ipb * 32)
                  type)
            iget dev inum)
            s
      | false ↦ ialloc_from n (inum + 1) dev type s
    ]

pub ialloc : ℕ → ℕ → M ℕ
unfolding ialloc_from
ialloc dev type s = ialloc_from (s.sb.ninodes - 1) 1 dev type s
