-- ===== src/Fs/Bitmap/Free.antt =====
-- bfree, and that it takes balloc back.
use cmpt.Prelude.{
  false-ne_true, ℕ, ◌%◌, ◌<◌, ◌≡◌, ◌≢◌, refl, ◌∙◌, sym, ap, subst, arith, true, false, ◌==◌,
  if◌then◌else◌, update, update-ne, Bool-cases, inl, inr, ==→eq, eq→==,
}
use cmpt.Disk.{Disk}
use cmpt.Fs.{State, SuperBlock, and_then, done, panic, bpb, bblock, iblock, readsb, superblock_of}
use cmpt.Fs.Bitmap.{mark_used, mark_free, free_bit, balloc, bfree}
use cmpt.Fs.Bitmap.Map.{used, Mapped, used-mark_free}
use cmpt.Fs.Rules.{Ends-done}
use cmpt.Fs.Bitmap.Alloc.{balloc-Allocated, Allocated, allocated, alloc_view, used-alloc_view}

-- The super block in memory is the one on the disk, and the blocks that are no data are used.
pub record Formatted (v : Disk) (sb : SuperBlock) : Type 0 where
  pub mapped : Mapped v sb
  pub synced : sb ≡ superblock_of (v 1)
  pub before_map : 1 < sb.bmapstart
  pub boot_used : used v sb 0 ≡ true
  pub super_used : used v sb 1 ≡ true
  pub inode_inside : (n : ℕ) → n < sb.ninodes → iblock n sb < sb.size
  pub inode_used : (n : ℕ) → n < sb.ninodes → used v sb (iblock n sb) ≡ true
  pub inode_after : 1 < sb.inodestart
  pub inode_apart : (n c : ℕ) → n < sb.ninodes → c < sb.size → iblock n sb ≢ bblock c sb

abbrev pub freed : State → ℕ → State
freed s b = record s {
  view = update s.view (bblock b s.sb) (mark_free (s.view (bblock b s.sb)) (b % bpb));
}

readsb_synced : (s : State) → s.sb ≡ superblock_of (s.view 1) → readsb s ≡ done tt s
unfolding readsb
readsb_synced s e = ap (λ x. done tt (record s { sb = x })) (sym e)

-- bfree once its readsb has found the super block unchanged
bfree_synced : (b : ℕ) (s : State) → s.sb ≡ superblock_of (s.view 1) → bfree b s ≡ free_bit b s
unfolding bfree
bfree_synced b s e = ap (λ r. and_then r (λ _. free_bit b)) (readsb_synced s e)

free_bit-used : (b : ℕ) (s : State) → used s.view s.sb b ≡ true → free_bit b s ≡ done tt (freed s b)
unfolding free_bit
free_bit-used b s u = rw u refl

free_bit_free : (b : ℕ) (s : State) → used s.view s.sb b ≡ false → free_bit b s ≡ panic
unfolding free_bit
free_bit_free b s u = rw u refl

-- bfree marks a used block as free, changes no other block in the map and no block but that of the
-- map on the disk; a block that is free already makes it panic.
pub bfree_lem :
    (b : ℕ) (s : State)
    → Formatted s.view s.sb
    → (used s.view s.sb b ≡ true
        → (bfree b s ≡ done tt (freed s b))
          × ((c : ℕ)
              → used (freed s b).view s.sb c ≡ (if c == b then false else used s.view s.sb c))
          × ((c : ℕ) → c ≢ bblock b s.sb → (freed s b).view c ≡ s.view c))
      × (used s.view s.sb b ≡ false → bfree b s ≡ panic)
bfree_lem b s f = (
  λ u. (
    bfree_synced b s f.synced ∙ free_bit-used b s u,
    used-mark_free s.view s.sb b (f.mapped.bytes (bblock b s.sb)),
    λ c ne. update-ne s.view (bblock b s.sb) _ c ne,
  ),
  λ u. bfree_synced b s f.synced ∙ free_bit_free b s u,
)

marked-lt :
    (v : Disk) (sb : SuperBlock) (b : ℕ)
    → ((c o : ℕ) → v c o < 256)
    → (c o : ℕ)
    → update (update v (bblock b sb) (mark_used (v (bblock b sb)) (b % bpb))) b (λ _. 0) c o < 256
marked-lt v sb b bytes c o = ground (arith, bytes c o, bytes (bblock b sb) o)

-- balloc keeps the file system well-formed.
pub alloc_view-Formatted :
    (v : Disk) (sb : SuperBlock) (b : ℕ)
    → Formatted v sb
    → b < sb.size
    → used v sb b ≡ false
    → Formatted (alloc_view v sb b) sb
alloc_view-Formatted v sb b f lt free = record {
  mapped = record {
    bytes = marked-lt v sb b f.mapped.bytes;
    map_inside = f.mapped.map_inside;
    map_used = λ c l. still (bblock c sb) (f.mapped.map_inside c l) (f.mapped.map_used c l);
  };
  synced = f.synced ∙ ap superblock_of (sym super_kept);
  before_map = f.before_map;
  boot_used = still 0 (omega arith) f.boot_used;
  super_used =
      still 1 (omega (arith, f.before_map, f.mapped.map_inside 0 (omega arith))) f.super_used;
  inode_inside = f.inode_inside;
  inode_used = λ n l. still (iblock n sb) (f.inode_inside n l) (f.inode_used n l);
  inode_after = f.inode_after;
  inode_apart = f.inode_apart;
}
  where
    still : (c : ℕ) → c < sb.size → used v sb c ≡ true → used (alloc_view v sb b) sb c ≡ true
    still c l u = used-alloc_view v sb b f.mapped lt free c l ∙ ground (arith, u)

    super_kept : alloc_view v sb b 1 ≡ v 1
    super_kept =
        update-ne (update v (bblock b sb) (mark_used (v (bblock b sb)) (b % bpb))) b (λ _. 0) 1
          (λ e. false-ne_true (sym free ∙ ap (used v sb) (sym e) ∙ f.super_used))
        ∙ update-ne v (bblock b sb) (mark_used (v (bblock b sb)) (b % bpb)) 1
            (omega (arith, f.before_map))

-- A block that balloc has returned can be given back: bfree does not panic, and the map is as it
-- was.
pub bfree-balloc :
    (s t : State) (b : ℕ)
    → Formatted s.view s.sb
    → balloc s ≡ done b t
    → (u : State) × (bfree b t ≡ done tt u)
      × ((c : ℕ) → c < s.sb.size → used u.view u.sb c ≡ used s.view s.sb c)
bfree-balloc s t b f returned =
    subst (λ (x : State). Back x) (sym a.now)
      (
        freed new b,
        bfree_synced b new now.synced ∙ free_bit-used b new taken,
        λ c lt.
            used-mark_free new.view new.sb b (now.mapped.bytes (bblock b s.sb)) c
            ∙ elim (Bool-cases (c == b)) [
              | inl e ↦ rw e (sym (ap (used s.view s.sb) (==→eq c b e) ∙ a.was_free))
              | inr e ↦
                  rw e
                    (used-alloc_view s.view s.sb b f.mapped a.in_size a.was_free c lt ∙ rw e refl)
            ],
      )
  where
    a : Allocated s b t
    a = Ends-done (balloc-Allocated s) returned

    new : State
    new = allocated s b

    Back : State → Type 0
    Back x =
        (u : State) × (bfree b x ≡ done tt u)
        × ((c : ℕ) → c < s.sb.size → used u.view u.sb c ≡ used s.view s.sb c)

    now : Formatted new.view new.sb
    now = alloc_view-Formatted s.view s.sb b f a.in_size a.was_free

    taken : used new.view new.sb b ≡ true
    taken =
        used-alloc_view s.view s.sb b f.mapped a.in_size a.was_free b a.in_size
        ∙ rw (eq→== b b refl) refl
