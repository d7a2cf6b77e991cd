-- ===== src/Bio/ReadBack.antt =====
-- What is written is read back, through the cache.
use cmpt.Prelude.{
  ℕ, ◌<◌, ◌≡◌, refl, sym, ◌∙◌, ap, subst, arith, true, false, Option, some, List, ◌∷◌, ◌++◌, ◌==◌,
  Bool-cases, inl, inr, ==→eq, ==→ne, eq→==, update, update_self, false-ne_true,
}
use cmpt.Bio.{Bcache, nbuf, Get, got, MemDisk, bread, bwrite, brelse}
use cmpt.Bio.Ring.{brelse-Released}
use cmpt.Bio.Getting.{IsCache}
use cmpt.Bio.Reading.{
  Shows, Coherent, Breads, reads, sleeps, panics, bread-Breads, bwrite-Writes, brelse-IsCache,
  holds_lem,
}

-- bwrite, brelse and bread of b's block, one after the other
pub record ReadBack (c : Bcache) (d : MemDisk) (b : ℕ) : Type 0 where
  pub written : Bcache
  pub disk : MemDisk
  pub released : Bcache
  pub again : ℕ
  pub cache : Bcache
  pub writes : bwrite b c d ≡ some (written, disk)
  pub on_disk : disk ≡ record d { memdisk = update d.memdisk (c.buf b).blockno (c.buf b).bytes }
  pub releases : brelse b written ≡ some released
  pub rereads : bread 1 (c.buf b).blockno released disk ≡ some (got again cache)
  pub bytes : (cache.buf again).bytes ≡ (c.buf b).bytes

module _ (c c2 : Bcache) (l2 : List ℕ) (d1 : MemDisk) (b : ℕ) (lb : b < nbuf) where
  -- A buf with the block of b is b.
  only_one :
      (c3 : Bcache) (i : ℕ)
      → IsCache c3 l2
      → i < nbuf
      → (c3.buf i).dev ≡ 1
      → (c3.buf b).dev ≡ 1
      → (c3.buf i).blockno ≡ (c3.buf b).blockno
      → i ≡ b
  only_one c3 i v li p q r = v.unique i b li lb (p ∙ sym q) r (λ h. omega (arith, h, p))

  read_again :
      (o : Option Get)
      → IsCache c2 l2
      → (c2.buf b).busy ≡ false
      → (c2.buf b).dev ≡ 1
      → (c2.buf b).blockno ≡ (c.buf b).blockno
      → (c2.buf b).bytes ≡ (c.buf b).bytes
      → d1.memdisk (c.buf b).blockno ≡ (c.buf b).bytes
      → Breads c2 l2 d1 (c.buf b).blockno o
      → (i : ℕ) × (c3 : Bcache) × (o ≡ some (got i c3)) × ((c3.buf i).bytes ≡ (c.buf b).bytes)
  read_again _ v idle dev block bytes disk (reads i c3 h ok) = (
    i,
    c3,
    refl,
    elim (Bool-cases (c3.buf i).dirty) [
      | inl dirty ↦ h.pending dirty ∙ elim (Bool-cases (i == b)) [
        | inl e ↦ ap (λ n. (c2.buf n).bytes) (==→eq i b e) ∙ bytes
        | inr n ↦
            (let kept = h.others b (λ e. ==→ne i b n (sym e)) in
              absurd (
                ==→ne i b n (
                  only_one c3 i h.cache h.inside h.on_disk (ap (λ y. y.dev) kept ∙ dev)
                    (h.block ∙ sym (ap (λ y. y.blockno) kept ∙ block)))))
      ]
      | inr clean ↦ h.clean ok clean ∙ disk
    ],
  )
  read_again _ v idle dev block bytes disk (sleeps i li h busy) =
      let (p, q) = holds_lem c2 1 (c.buf b).blockno i h in
      let e = only_one c2 i v li p dev (q ∙ sym block) in
      absurd (false-ne_true (sym idle ∙ ap (λ n. (c2.buf n).busy) (sym e) ∙ busy))
  read_again _ v idle dev block bytes disk (panics none_has all_busy) =
      absurd (false-ne_true (sym (none_has b lb) ∙ (rw (eq→== _ _ dev, eq→== _ _ block) refl)))

-- bwrite puts the bytes of a busy buf into its block of disk 1 and changes no other block there, and
-- the next bread of this block returns these bytes when the buf was released by brelse: none of
-- the three calls panics, and bread does not sleep.
pub bread-bwrite :
    (c : Bcache) (l : List ℕ) (d : MemDisk) (b : ℕ)
    → IsCache c l
    → Coherent c d
    → b < nbuf
    → (c.buf b).busy ≡ true
    → (c.buf b).dev ≡ 1
    → (c.buf b).blockno < d.disksize
    → ReadBack c d b
bread-bwrite c l d b v co lb busy dev lt =
    let (c1, d1, e1, w) = bwrite-Writes c l d b v co lb busy dev lt in
    let cut = v.order.complete b lb in
    let busy1 : (c1.buf b).busy ≡ true = ap (λ y. y.busy) w.buf ∙ busy in
    let (c2, e2, r) = brelse-Released b c1 l w.cache.order lb busy1 cut in
    let disk : d1.memdisk (c.buf b).blockno ≡ (c.buf b).bytes =
      ap (λ m. m.memdisk (c.buf b).blockno) w.disk
      ∙ update_self d.memdisk (c.buf b).blockno (c.buf b).bytes (c.buf b).blockno refl in
    let shows : Shows (c1.buf b) d1 = record {
      same = λ p q s. ap (λ y. y.bytes) w.buf ∙ sym (ap (λ y. d1.memdisk y.blockno) w.buf ∙ disk);
      dirty_valid = λ p. ap (λ y. y.dirty) w.buf;
    } in
    let (v2, co2) = brelse-IsCache b c1 l d1 cut c2 w.cache w.coherent shows r in
    let at : c2.buf b ≡ record (c1.buf b) { busy = false } =
      ap (λ f. f b) r.bufs ∙ update_self c1.buf b (record (c1.buf b) { busy = false }) b refl in
    let (i, c3, e3, bytes) =
      read_again c c2 (b ∷ cut.before ++ cut.after) d1 b lb (bread 1 (c.buf b).blockno c2 d1) v2
        (ap (λ y. y.busy) at) (ap (λ y. y.dev) at ∙ ap (λ y. y.dev) w.buf ∙ dev)
        (ap (λ y. y.blockno) at ∙ ap (λ y. y.blockno) w.buf)
        (ap (λ y. y.bytes) at ∙ ap (λ y. y.bytes) w.buf) disk
        (bread-Breads c2 (b ∷ cut.before ++ cut.after) d1 (c.buf b).blockno
          (subst (λ n. (c.buf b).blockno < n) (sym (ap (λ m. m.disksize) w.disk)) lt) v2 co2) in
    record {
      written = c1;
      disk = d1;
      released = c2;
      again = i;
      cache = c3;
      writes = e1;
      on_disk = w.disk;
      releases = e2;
      rereads = e3;
      bytes = bytes;
    }
