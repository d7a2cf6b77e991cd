-- ===== src/Fs/Bitmap/Taking.antt =====
-- What balloc takes from the free map: the first free block, zeroed, and nothing else.
use cmpt.Prelude.{
  ℕ, ◌%◌, ◌<◌, ◌≡◌, ◌≢◌, refl, ◌∙◌, ap, true, false, ◌==◌, if◌then◌else◌, update, update-ne,
  update_self,
}
use cmpt.Disk.{Block, Disk}
use cmpt.Fs.{State, bpb, bblock}
use cmpt.Fs.Rules.{Ends, mono}
use cmpt.Fs.Bitmap.{mark_used, balloc}
use cmpt.Fs.Bitmap.Map.{used, Mapped}
use cmpt.Fs.Bitmap.Alloc.{Allocated, UsedBelow, Full, balloc-Allocated, used-alloc_view}

-- Block b was the first free one; now the map has it as used too, it is zeroed, and no block but
-- it and its block of the map is written. The super block and the inodes in memory are kept.
pub record Takes (s : State) (b : ℕ) (t : State) : Type 0 where
  pub in_size : b < s.sb.size
  pub was_free : used s.view s.sb b ≡ false
  pub first : UsedBelow s b
  pub map :
      (c : ℕ) → c < s.sb.size → used t.view t.sb c ≡ (if c == b then true else used s.view s.sb c)
  pub zeroed : (o : ℕ) → t.view b o ≡ 0
  pub others : (c : ℕ) → c ≢ b → c ≢ bblock b s.sb → t.view c ≡ s.view c
  pub sb_kept : t.sb ≡ s.sb
  pub icache_kept : t.icache ≡ s.icache

Allocated-Takes : (s t : State) (b : ℕ) → Mapped s.view s.sb → Allocated s b t → Takes s b t
Allocated-Takes s t b m a = record {
  in_size = a.in_size;
  was_free = a.was_free;
  first = a.first;
  map = λ c lt.
      ap (λ (x : State). used x.view x.sb c) a.now
      ∙ used-alloc_view s.view s.sb b m a.in_size a.was_free c lt;
  zeroed = λ o.
      ap (λ (x : State). x.view b o) a.now
      ∙ ap (λ (x : Block). x o) (update_self marked b (λ _. 0) b refl);
  others = λ c ne not_map.
      ap (λ (x : State). x.view c) a.now
      ∙ update-ne marked b (λ _. 0) c ne
      ∙ update-ne s.view (bblock b s.sb) (mark_used (s.view (bblock b s.sb)) (b % bpb)) c not_map;
  sb_kept = ap (λ (x : State). x.sb) a.now;
  icache_kept = ap (λ (x : State). x.icache) a.now;
}
  where
    marked : Disk
    marked = update s.view (bblock b s.sb) (mark_used (s.view (bblock b s.sb)) (b % bpb))

-- On a disk whose map lies in it and has its own blocks as used, balloc returns the first block that
-- the map has as free. After that the map has it as used and every other block as before, the
-- block holds zeros, and no block but it and the block of its map bit has changed, nor have the
-- super block and the inodes in memory. Where every block is in use, and only there, balloc panics for lack of
-- blocks, without a change.
pub balloc-Takes : (s : State) → Mapped s.view s.sb → Ends (Takes s) (Full s) (balloc s)
balloc-Takes s m = mono (balloc-Allocated s) (λ b t a. Allocated-Takes s t b m a) (λ u q. q)
