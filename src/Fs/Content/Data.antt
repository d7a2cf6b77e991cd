-- ===== src/Fs/Content/Data.antt =====
-- The blocks that hold the content of files, apart from the super block, the map and the inodes.
use cmpt.Prelude.{
  false-ne_true, ℕ, ◌%◌, ◌^◌, ◌<◌, ◌≡◌, ◌≢◌, refl, ◌∙◌, sym, ap, arith, true, false, update,
  update-ne, update_self,
}
use cmpt.Disk.{Block, Disk, word}
use cmpt.Fs.{SuperBlock, bpb, bblock, iblock, superblock_of}
use cmpt.Fs.Bitmap.{block_bit, mark_used}
use cmpt.Fs.Bitmap.Map.{used}
use cmpt.Fs.Bitmap.Alloc.{alloc_view, used-alloc_view}
use cmpt.Fs.Bitmap.Free.{Formatted}

pub record IsData (v : Disk) (sb : SuperBlock) (b : ℕ) : Type 0 where
  pub inside : b < sb.size
  pub taken : used v sb b ≡ true
  pub no_zero : b ≢ 0
  pub no_super : b ≢ 1
  pub no_map : (c : ℕ) → c < sb.size → b ≢ bblock c sb
  pub no_inode : (n : ℕ) → n < sb.ninodes → b ≢ iblock n sb

-- Block numbers are words.
pub size-lt : {v : Disk} {sb : SuperBlock} → Formatted v sb → sb.size < 2 ^ 32
unfolding word
size-lt {v} {sb} f = omega (
  arith,
  ap (λ (x : SuperBlock). x.size) f.synced,
  f.mapped.bytes 1 0,
  f.mapped.bytes 1 1,
  f.mapped.bytes 1 2,
  f.mapped.bytes 1 3,
)

-- balloc of block b
module _ {v : Disk} {sb : SuperBlock} {b : ℕ} (f : Formatted v sb) (lt : b < sb.size)
    (free : used v sb b ≡ false) where
  taken_ne : (c : ℕ) → used v sb c ≡ true → b ≢ c
  taken_ne c u e = false-ne_true (sym free ∙ ap (used v sb) e ∙ u)

  pub alloc_view_kept : (d : ℕ) → IsData v sb d → alloc_view v sb b d ≡ v d
  alloc_view_kept d i =
      update-ne (update v (bblock b sb) (mark_used (v (bblock b sb)) (b % bpb))) b (λ _. 0) d
        (λ e. taken_ne d i.taken (sym e))
      ∙ update-ne v (bblock b sb) (mark_used (v (bblock b sb)) (b % bpb)) d (i.no_map b lt)

  pub alloc_view_new : alloc_view v sb b b ≡ (λ _. 0)
  alloc_view_new =
      update_self (update v (bblock b sb) (mark_used (v (bblock b sb)) (b % bpb))) b (λ _. 0) b refl

  pub IsData-alloc_view : (d : ℕ) → IsData v sb d → IsData (alloc_view v sb b) sb d
  IsData-alloc_view d i = record {
    inside = i.inside;
    taken = used-alloc_view v sb b f.mapped lt free d i.inside ∙ ground (arith, i.taken);
    no_zero = i.no_zero;
    no_super = i.no_super;
    no_map = i.no_map;
    no_inode = i.no_inode;
  }

  -- The new block is none of those in use.
  pub IsData-new : IsData (alloc_view v sb b) sb b
  IsData-new = record {
    inside = lt;
    taken = used-alloc_view v sb b f.mapped lt free b lt ∙ ground arith;
    no_zero = taken_ne 0 f.boot_used;
    no_super = taken_ne 1 f.super_used;
    no_map = λ c l. taken_ne (bblock c sb) (f.mapped.map_used c l);
    no_inode = λ n l. taken_ne (iblock n sb) (f.inode_used n l);
  }

  pub new_ne : (d : ℕ) → IsData v sb d → b ≢ d
  new_ne d i = taken_ne d i.taken

-- Blocks that hold neither the super block nor the map
pub record IsOpen (sb : SuperBlock) (y : ℕ) : Type 0 where
  pub size_pos : 0 < sb.size
  pub no_super : y ≢ 1
  pub no_map : (c : ℕ) → c < sb.size → y ≢ bblock c sb

pub IsData-IsOpen : {v : Disk} {sb : SuperBlock} {y : ℕ} → IsData v sb y → IsOpen sb y
IsData-IsOpen i = record {
  size_pos = omega (arith, i.inside);
  no_super = i.no_super;
  no_map = i.no_map;
}

pub iblock-IsOpen :
    {v : Disk} {sb : SuperBlock} (n : ℕ) → Formatted v sb → n < sb.ninodes → IsOpen sb (iblock n sb)
iblock-IsOpen n f lt = record {
  size_pos = omega (arith, f.inode_inside n lt);
  no_super = omega (arith, f.inode_after);
  no_map = λ c l. f.inode_apart n c lt l;
}

-- A write to such a block
module _ (v : Disk) {sb : SuperBlock} {y : ℕ} (a : Block) (i : IsOpen sb y) where
  used_write : (c : ℕ) → c < sb.size → used (update v y a) sb c ≡ used v sb c
  used_write c l =
      ap (λ (x : Block). block_bit x (c % bpb))
        (update-ne v y a (bblock c sb) (λ e. i.no_map c l (sym e)))

  pub IsData-write : (d : ℕ) → IsData v sb d → IsData (update v y a) sb d
  IsData-write d j = record {
    inside = j.inside;
    taken = used_write d j.inside ∙ j.taken;
    no_zero = j.no_zero;
    no_super = j.no_super;
    no_map = j.no_map;
    no_inode = j.no_inode;
  }

  pub Formatted-write : ((o : ℕ) → a o < 256) → Formatted v sb → Formatted (update v y a) sb
  Formatted-write bytes f = record {
    mapped = record {
      bytes = λ c o. ground (arith, bytes o, f.mapped.bytes c o);
      map_inside = f.mapped.map_inside;
      map_used = λ c l. used_write (bblock c sb) (f.mapped.map_inside c l) ∙ f.mapped.map_used c l;
    };
    synced = f.synced ∙ ap superblock_of (sym (update-ne v y a 1 (λ e. i.no_super (sym e))));
    before_map = f.before_map;
    boot_used = used_write 0 (omega (arith, i.size_pos)) ∙ f.boot_used;
    super_used =
        used_write 1
          (omega (arith, f.before_map, f.mapped.map_inside 0 (omega (arith, i.size_pos))))
        ∙ f.super_used;
    inode_inside = f.inode_inside;
    inode_used = λ n l. used_write (iblock n sb) (f.inode_inside n l) ∙ f.inode_used n l;
    inode_after = f.inode_after;
    inode_apart = f.inode_apart;
  }
