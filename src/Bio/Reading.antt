-- ===== src/Bio/Reading.antt =====
-- bread, read_if_new, bwrite and brelse over the disk in memory: the cache shows what the disk holds.
use cmpt.Prelude.{
  ℕ, ◌<◌, ◌≡◌, ◌≢◌, refl, sym, ◌∙◌, ap, subst, arith, Bool, true, false, not, ◌&&◌, Option, none,
  some, List, ◌∷◌, ◌++◌, ◌==◌, leb, Bool-cases, inl, inr, eq→==, ==→eq, ==→ne, update, update-ne,
  update_self, false-ne_true,
}
use cmpt.Bio.{
  Bcache, Buf, nbuf, Get, got, asleep, bget, make_busy, recycled, MemDisk, iderw, bread,
  read_if_new, bwrite,
}
use cmpt.Bio.Chain.{Cut}
use cmpt.Bio.Ring.{Released}
use cmpt.Bio.Scans.{holds, is_clean}
use cmpt.Bio.Getting.{
  IsCache, Unique, rebuf, rebuf-IsCache, Gets, hit, recycles, waits, all_taken, bget-Gets,
}

-- A buf of disk 1 that nobody uses and that is valid and clean has the bytes of its block; one that
-- is not valid is not dirty.
pub record Shows (x : Buf) (d : MemDisk) : Type 0 where
  pub same : x.valid ≡ true → x.dirty ≡ false → x.dev ≡ 1 → x.bytes ≡ d.memdisk x.blockno
  pub dirty_valid : x.valid ≡ false → x.dirty ≡ false

abbrev pub Coherent : Bcache → MemDisk → Type 0
Coherent c d = (b : ℕ) → b < nbuf → (c.buf b).busy ≡ false → Shows (c.buf b) d

-- A buf that holds a block of disk 1 for its user: a clean one has the bytes of the disk, a dirty
-- one those that it had; the other bufs are as before.
pub record Handed (c : Bcache) (l : List ℕ) (d : MemDisk) (blockno b : ℕ) (c' : Bcache)
    : Type 0 where
  pub inside : b < nbuf
  pub cache : IsCache c' l
  pub busy : (c'.buf b).busy ≡ true
  pub on_disk : (c'.buf b).dev ≡ 1
  pub block : (c'.buf b).blockno ≡ blockno
  pub clean :
      (c'.buf b).valid ≡ true → (c'.buf b).dirty ≡ false → (c'.buf b).bytes ≡ d.memdisk blockno
  pub pending : (c'.buf b).dirty ≡ true → (c'.buf b).bytes ≡ (c.buf b).bytes
  pub dirty_valid : (c'.buf b).valid ≡ false → (c'.buf b).dirty ≡ false
  pub others : (i : ℕ) → i ≢ b → c'.buf i ≡ c.buf i

-- What bread does with a block of disk 1
pub data Breads (c : Bcache) (l : List ℕ) (d : MemDisk) (blockno : ℕ) : Option Get → Type 0 where
  reads :
      (b : ℕ) (c' : Bcache)
      → Handed c l d blockno b c'
      → (c'.buf b).valid ≡ true
      → Breads c l d blockno (some (got b c'))
  sleeps :
      (b : ℕ)
      → b < nbuf
      → holds c 1 blockno b ≡ true
      → (c.buf b).busy ≡ true
      → Breads c l d blockno (some (asleep b))
  panics :
      ((i : ℕ) → i < nbuf → holds c 1 blockno i ≡ false)
      → ((i : ℕ) → i < nbuf → is_clean c i ≡ false)
      → Breads c l d blockno none

-- iderw reads a block into a buf that is not valid.
iderw-read :
    (x : Buf) (d : MemDisk)
    → x.busy ≡ true
    → x.valid ≡ false
    → x.dirty ≡ false
    → x.dev ≡ 1
    → x.blockno < d.disksize
    → iderw x d ≡ some (record x { bytes = d.memdisk x.blockno; valid = true }, d)
unfolding iderw
iderw-read x d busy new dirty dev lt =
    let out_of_range : leb d.disksize x.blockno ≡ false = ground (arith, lt) in
    rw (busy, new, dirty, eq→== x.dev 1 dev, out_of_range) refl

pub holds_lem :
    (c : Bcache) (dev blockno b : ℕ)
    → holds c dev blockno b ≡ true
    → ((c.buf b).dev ≡ dev) × ((c.buf b).blockno ≡ blockno)
holds_lem c dev blockno b h = (ground (arith, h), ground (arith, h))

module _ (c : Bcache) (l : List ℕ) (d : MemDisk) (blockno : ℕ) (lt : blockno < d.disksize) where
  after_get :
      (b : ℕ) (c' : Bcache)
      → Handed c l d blockno b c'
      → Breads c l d blockno (read_if_new d (got b c'))
  unfolding read_if_new
  after_get b c' g = elim (Bool-cases (c'.buf b).valid) [
    | inl ok ↦ rw ok (reads b c' g ok)
    | inr new ↦
        (let read =
            iderw-read (c'.buf b) d g.busy new (g.dirty_valid new) g.on_disk
              (omega (arith, lt, g.block)) in
          let x : Buf = record (c'.buf b) { bytes = d.memdisk (c'.buf b).blockno; valid = true } in
          let at : update c'.buf b x b ≡ x = update_self c'.buf b x b refl in
          rw (read, new)
            (reads b (rebuf b x c')
              (record {
                inside = g.inside;
                cache = rebuf-IsCache c' l g.cache b x refl refl;
                busy = ap (λ y. y.busy) at ∙ g.busy;
                on_disk = ap (λ y. y.dev) at ∙ g.on_disk;
                block = ap (λ y. y.blockno) at ∙ g.block;
                clean = λ p q. ap (λ y. y.bytes) at ∙ ap d.memdisk g.block;
                pending = λ p.
                    absurd (false-ne_true (sym (ap (λ y. y.dirty) at ∙ g.dirty_valid new) ∙ p));
                dirty_valid = λ p. absurd (false-ne_true (sym p ∙ ap (λ y. y.valid) at));
                others = λ i ne. update-ne c'.buf b x i ne ∙ g.others i ne;
              })
              (ap (λ y. y.valid) at)))
  ]

  -- A call of bread for a block of disk 1, which has it, returns a valid buf of that block, busy for
  -- the caller alone, with the bytes that the disk holds unless it waits to be written; or it sleeps
  -- on the busy buf of the block; or it panics when no buf has the block and all are busy or dirty.
  pub bread-Breads : IsCache c l → Coherent c d → Breads c l d blockno (bread 1 blockno c d)
  unfolding bread read_if_new
  bread-Breads v co = of (bget 1 blockno c) (bget-Gets c l v 1 blockno)
    where
      handed :
          (b : ℕ) (x : Buf)
          → b < nbuf
          → IsCache (rebuf b x c) l
          → x.busy ≡ true
          → x.dev ≡ 1
          → x.blockno ≡ blockno
          → (x.valid ≡ true → x.dirty ≡ false → x.bytes ≡ d.memdisk blockno)
          → (x.dirty ≡ true → x.bytes ≡ (c.buf b).bytes)
          → (x.valid ≡ false → x.dirty ≡ false)
          → Handed c l d blockno b (rebuf b x c)
      handed b x lb w busy dev block clean pending dv =
          let at : update c.buf b x b ≡ x = update_self c.buf b x b refl in
          record {
            inside = lb;
            cache = w;
            busy = ap (λ y. y.busy) at ∙ busy;
            on_disk = ap (λ y. y.dev) at ∙ dev;
            block = ap (λ y. y.blockno) at ∙ block;
            clean = λ p q.
                ap (λ y. y.bytes) at
                ∙ clean (sym (ap (λ y. y.valid) at) ∙ p) (sym (ap (λ y. y.dirty) at) ∙ q);
            pending = λ p. ap (λ y. y.bytes) at ∙ pending (sym (ap (λ y. y.dirty) at) ∙ p);
            dirty_valid = λ p. ap (λ y. y.dirty) at ∙ dv (sym (ap (λ y. y.valid) at) ∙ p);
            others = λ i ne. update-ne c.buf b x i ne;
          }

      of : (g : Get) → Gets c l 1 blockno g → Breads c l d blockno (read_if_new d g)
      of _ (hit b lb h f w) =
          let (dev, block) = holds_lem c 1 blockno b h in
          after_get b (rebuf b (make_busy (c.buf b)) c) (
            handed b (make_busy (c.buf b)) lb w refl dev block
              (λ p q. (co b lb f).same p q dev ∙ ap d.memdisk block) (λ p. refl)
              (co b lb f).dirty_valid)
      of _ (recycles b lb none_has k cut before w) =
          after_get b (rebuf b (recycled 1 blockno (c.buf b)) c) (
            handed b (recycled 1 blockno (c.buf b)) lb w refl refl refl
              (λ p q. absurd (false-ne_true p)) (λ p. absurd (false-ne_true p)) (λ p. refl))
      of _ (waits b lb h f) = sleeps b lb h f
      of _ (all_taken none_has all_busy) = panics none_has all_busy

and_false : (b : Bool) → b && not true ≡ false
and_false true = refl
and_false false = refl

-- iderw writes out a dirty buf.
iderw-write :
    (x : Buf) (d : MemDisk)
    → x.busy ≡ true
    → x.dirty ≡ true
    → x.dev ≡ 1
    → x.blockno < d.disksize
    → iderw x d
      ≡ some (
        record x { dirty = false; valid = true },
        record d { memdisk = update d.memdisk x.blockno x.bytes },
      )
unfolding iderw
iderw-write x d busy dirty dev lt =
    let out_of_range : leb d.disksize x.blockno ≡ false = ground (arith, lt) in
    let no_panic : x.valid && not x.dirty ≡ false = rw dirty (and_false x.valid) in
    rw (busy, no_panic, dirty, eq→== x.dev 1 dev, out_of_range) refl

-- What bwrite of b leaves
pub record Writes (c : Bcache) (l : List ℕ) (d : MemDisk) (b : ℕ) (c' : Bcache) (d' : MemDisk)
    : Type 0 where
  pub cache : IsCache c' l
  pub coherent : Coherent c' d'
  pub disk : d' ≡ record d { memdisk = update d.memdisk (c.buf b).blockno (c.buf b).bytes }
  pub buf : c'.buf b ≡ record (c.buf b) { dirty = false; valid = true }
  pub others : (i : ℕ) → i ≢ b → c'.buf i ≡ c.buf i

-- A write of b's block is none of another buf's.
Shows-elsewhere :
    (c : Bcache) (l : List ℕ) (d : MemDisk) (b i : ℕ)
    → IsCache c l
    → b < nbuf
    → i < nbuf
    → (c.buf b).dev ≡ 1
    → i ≢ b
    → Shows (c.buf i) d
    → Shows (c.buf i) (record d { memdisk = update d.memdisk (c.buf b).blockno (c.buf b).bytes })
Shows-elsewhere c l d b i v lb li dev ne sh = record {
  same = λ p q r.
      let apart : (c.buf i).blockno ≢ (c.buf b).blockno =
        λ e. ne (v.unique i b li lb (r ∙ sym dev) e (λ h. omega (arith, h, r))) in
      sh.same p q r
      ∙ sym (update-ne d.memdisk (c.buf b).blockno (c.buf b).bytes (c.buf i).blockno apart);
  dirty_valid = sh.dirty_valid;
}

-- bwrite of a busy buf of disk 1 puts its bytes into its block of the disk and changes no other
-- block and no other buf; the bufs that nobody uses still show what the disk holds.
pub bwrite-Writes :
    (c : Bcache) (l : List ℕ) (d : MemDisk) (b : ℕ)
    → IsCache c l
    → Coherent c d
    → b < nbuf
    → (c.buf b).busy ≡ true
    → (c.buf b).dev ≡ 1
    → (c.buf b).blockno < d.disksize
    → (c' : Bcache) × (d' : MemDisk) × (bwrite b c d ≡ some (c', d')) × Writes c l d b c' d'
unfolding bwrite
bwrite-Writes c l d b v co lb busy dev lt =
    let x : Buf = record (c.buf b) { dirty = false; valid = true } in
    let d' : MemDisk = record d { memdisk = update d.memdisk (c.buf b).blockno (c.buf b).bytes } in
    let at : update c.buf b x b ≡ x = update_self c.buf b x b refl in
    (
      rebuf b x c,
      d',
      rw (iderw-write (record (c.buf b) { dirty = true }) d busy refl dev lt, busy) refl,
      record {
        cache = rebuf-IsCache c l v b x refl refl;
        coherent = λ i li idle.
            let ne : i ≢ b = λ e.
              false-ne_true
                (sym idle ∙ ap (λ n. (update c.buf b x n).busy) e ∙ ap (λ y. y.busy) at ∙ busy) in
            let kept = update-ne c.buf b x i ne in
            subst (λ y. Shows y d') (sym kept)
              (Shows-elsewhere c l d b i v lb li dev ne
                (co i li (ap (λ y. y.busy) (sym kept) ∙ idle)));
        disk = refl;
        buf = at;
        others = λ i ne. update-ne c.buf b x i ne;
      },
    )

-- brelse of a buf that shows what the disk holds, or is dirty, keeps the cache in order and in
-- agreement with the disk.
pub brelse-IsCache :
    (b : ℕ) (c : Bcache) (l : List ℕ) (d : MemDisk) (cut : Cut b l) (c' : Bcache)
    → IsCache c l
    → Coherent c d
    → Shows (c.buf b) d
    → Released b c l cut c'
    → IsCache c' (b ∷ cut.before ++ cut.after) × Coherent c' d
brelse-IsCache b c l d cut c' v co sh r =
    let x : Buf = record (c.buf b) { busy = false } in
    (
      record {
        order = r.order;
        unique = subst Unique (sym r.bufs) (rebuf-IsCache c l v b x refl refl).unique;
      },
      λ i li idle. elim (Bool-cases (i == b)) [
        | inl e ↦
            subst (λ y. Shows y d)
              (sym (ap (λ f. f i) r.bufs ∙ update_self c.buf b x i (==→eq i b e)))
              (record { same = sh.same; dirty_valid = sh.dirty_valid })
        | inr n ↦
            (let kept = ap (λ f. f i) r.bufs ∙ update-ne c.buf b x i (==→ne i b n) in
              subst (λ y. Shows y d) (sym kept) (co i li (ap (λ y. y.busy) (sym kept) ∙ idle)))
      ],
    )
