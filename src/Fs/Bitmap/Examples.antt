-- ===== src/Fs/Bitmap/Examples.antt =====
-- The file system on a small disk: boot block 0, super block 1, inodes in 2, the map in 3, and
-- the data blocks 4 to 6, which are free; and the free map there.
use cmpt.Prelude.{ℕ, zero, suc, ◌<◌, ◌≡◌, refl, arith, true, false, ◌==◌, if◌then◌else◌}
use cmpt.Disk.{Block, Disk, word}
use cmpt.Fs.{State, SuperBlock, Inode, done, bblock, iblock, t_dir}
use cmpt.Fs.Rules.{Ends}
use cmpt.Fs.Bitmap.{balloc, bfree, find_bit, balloc_from}
use cmpt.Fs.Bitmap.Map.{used}
use cmpt.Fs.Bitmap.Alloc.{Full, allocated}
use cmpt.Fs.Bitmap.Taking.{Takes, balloc-Takes}
use cmpt.Fs.Bitmap.Free.{Formatted, bfree-balloc}

abbrev super_block : Block
super_block j =
    if j == 0 then 7 else if j == 8 then 8 else if j == 20 then 2 else if j == 24 then 3 else 0

abbrev pub small_disk : Disk
small_disk b =
    if b == 1 then super_block else if b == 3 then (λ j. if j == 0 then 15 else 0) else (λ _. 0)

abbrev pub small_sb : SuperBlock
small_sb = record {
  size = 7;
  nblocks = 0;
  ninodes = 8;
  nlog = 0;
  logstart = 0;
  inodestart = 2;
  bmapstart = 3;
}

-- Inode 5, a directory in memory.
abbrev pub five : Inode
five = record {
  dev = 1;
  inum = 5;
  ref = 1;
  busy = true;
  valid = true;
  type = t_dir;
  major = 0;
  minor = 0;
  nlink = 1;
  size = 16;
  addrs = λ j. if j == 0 then 4 else 0;
}

-- Slot 0 of the cache has inode 5, the others have it too, but not its fields.
abbrev pub small : State
small = record {
  view = small_disk;
  sb = small_sb;
  icache = λ n.
      if n == 0 then five else record five { valid = false; type = 0; size = 0; addrs = λ _. 0 };
}

small-used : (c : ℕ) → c < 4 → used small_disk small_sb c ≡ true
small-used zero _ = refl
small-used (suc zero) _ = refl
small-used (suc (suc zero)) _ = refl
small-used (suc (suc (suc zero))) _ = refl
small-used (suc (suc (suc (suc c)))) lt = absurd (omega arith)

pub small-Formatted : Formatted small_disk small_sb
unfolding word
small-Formatted = record {
  mapped = record {
    bytes = λ b o. ground arith;
    map_inside = λ c lt. omega arith;
    map_used = λ c lt. small-used (bblock c small_sb) (omega arith);
  };
  synced = refl;
  before_map = omega arith;
  boot_used = small-used 0 (omega arith);
  super_used = small-used 1 (omega arith);
  inode_inside = λ n lt. omega arith;
  inode_used = λ n lt. small-used (iblock n small_sb) (omega arith);
  inode_after = omega arith;
  inode_apart = λ n c ln lc. omega arith;
}

balloc-Takes_example : Ends (Takes small) (Full small) (balloc small)
balloc-Takes_example = balloc-Takes small small-Formatted.mapped

small-balloc : balloc small ≡ done 4 (allocated small 4)
unfolding balloc balloc_from find_bit
small-balloc = refl

bfree-balloc_example :
    (u : State) × (bfree 4 (allocated small 4) ≡ done tt u)
    × ((c : ℕ) → c < 7 → used u.view u.sb c ≡ used small_disk small_sb c)
bfree-balloc_example = bfree-balloc small (allocated small 4) 4 small-Formatted small-balloc
