-- ===== src/Bio/Getting.antt =====
-- bget: one buf for each block, and the choice of the one to recycle.
use cmpt.Prelude.{
  ℕ, ◌+◌, zero, suc, ◌<◌, ◌≡◌, ◌≢◌, refl, sym, ◌∙◌, ap, subst, arith, All, true, false, List, ◌==◌,
  Bool-cases, inl, inr, eq→==, ==→eq, ==→ne, update, update-ne, update_self, false-ne_true,
}
use cmpt.Bio.{
  Bcache, Buf, Lookup, head, nbuf, no_dev, Get, got, asleep, no_buffers, take_buf, bget, init_from,
  link_first, binit, make_busy, recycled,
}
use cmpt.Bio.Chain.{
  Cut, backwards, Chain-backwards, All-backwards, All-forwards, All-middle, length-backwards,
}
use cmpt.Bio.Ring.{Order, head_out, down, binit-Order}
use cmpt.Bio.Scans.{
  holds, is_clean, Hit, ready_one, busy_one, missing, Spare, spare, none_spare, find_cached-Hit,
  find_clean-Spare,
}

-- No block of a device has two bufs.
abbrev pub Unique : (ℕ → Buf) → Type 0
Unique f =
    (i j : ℕ)
    → i < nbuf
    → j < nbuf
    → (f i).dev ≡ (f j).dev
    → (f i).blockno ≡ (f j).blockno
    → (f i).dev ≢ no_dev
    → i ≡ j

-- The ring has the bufs in the order l, and no block of a device has two of them.
pub record IsCache (c : Bcache) (l : List ℕ) : Type 0 where
  pub order : Order c l
  pub unique : Unique c.buf

-- The cache with a buf changed
abbrev pub rebuf : ℕ → Buf → Bcache → Bcache
rebuf b x c = record c { buf = update c.buf b x }

-- What bget does
pub data Gets (c : Bcache) (l : List ℕ) (dev blockno : ℕ) : Get → Type 0 where
  hit :
      (b : ℕ)
      → b < nbuf
      → holds c dev blockno b ≡ true
      → (c.buf b).busy ≡ false
      → IsCache (rebuf b (record (c.buf b) { busy = true }) c) l
      → Gets c l dev blockno (got b (rebuf b (record (c.buf b) { busy = true }) c))
  recycles :
      (b : ℕ)
      → b < nbuf
      → ((i : ℕ) → i < nbuf → holds c dev blockno i ≡ false)
      → is_clean c b ≡ true
      → (cut : Cut b (backwards l)) → All (λ x. is_clean c x ≡ false) cut.before
      → IsCache
          (rebuf b
            (record (c.buf b) {
              dev = dev;
              blockno = blockno;
              busy = true;
              valid = false;
              dirty = false;
            })
            c)
          l
      → Gets c l dev blockno (
          got b (
            rebuf b
              (record (c.buf b) {
                dev = dev;
                blockno = blockno;
                busy = true;
                valid = false;
                dirty = false;
              })
              c))
  waits :
      (b : ℕ)
      → b < nbuf
      → holds c dev blockno b ≡ true
      → (c.buf b).busy ≡ true
      → Gets c l dev blockno (asleep b)
  all_taken :
      ((i : ℕ) → i < nbuf → holds c dev blockno i ≡ false)
      → ((i : ℕ) → i < nbuf → is_clean c i ≡ false)
      → Gets c l dev blockno no_buffers

module _ (c : Bcache) (l : List ℕ) (v : IsCache c l) where
  at_cut : (P : ℕ → Type 0) (b : ℕ) (m : List ℕ) → Cut b m → All P m → P b
  at_cut P b m k all = (All-middle P k.before b k.after (subst (All P) k.whole all)).0

  in_ring : (P : ℕ → Type 0) → All P l → (b : ℕ) → b < nbuf → P b
  in_ring P all b lt = at_cut P b l (v.order.complete b lt) all

  ring_kept : (f : ℕ → Buf) → Order (record c { buf = f }) l
  ring_kept f = record {
    ring = v.order.ring;
    inside = v.order.inside;
    distinct = v.order.distinct;
    complete = v.order.complete;
    size = v.order.size;
  }

  kept_field :
      (b : ℕ) (x : Buf) (k : ℕ) (f : Buf → ℕ)
      → f x ≡ f (c.buf b)
      → f (update c.buf b x k) ≡ f (c.buf k)
  kept_field b x k f e = elim (Bool-cases (k == b)) [
    | inl q ↦
        ap f (update_self c.buf b x k (==→eq k b q)) ∙ e ∙ ap (λ n. f (c.buf n)) (sym (==→eq k b q))
    | inr q ↦ rw q refl
  ]

  -- A change of a buf that keeps its block
  pub rebuf-IsCache :
      (b : ℕ) (x : Buf)
      → x.dev ≡ (c.buf b).dev
      → x.blockno ≡ (c.buf b).blockno
      → IsCache (rebuf b x c) l
  rebuf-IsCache b x e f = record {
    order = ring_kept (update c.buf b x);
    unique = λ i j li lj p q r.
        let same : (k : ℕ) → (update c.buf b x k).dev ≡ (c.buf k).dev =
          λ k. kept_field b x k (λ y. y.dev) e in
        let at : (k : ℕ) → (update c.buf b x k).blockno ≡ (c.buf k).blockno =
          λ k. kept_field b x k (λ y. y.blockno) f in
        v.unique i j li lj (sym (same i) ∙ p ∙ same j) (sym (at i) ∙ q ∙ at j)
          (λ h. r (same i ∙ h));
  }

  other_block :
      (dev blockno : ℕ)
      → ((i : ℕ) → i < nbuf → holds c dev blockno i ≡ false)
      → (j : ℕ) → j < nbuf
      → (c.buf j).dev ≡ dev
      → (c.buf j).blockno ≡ blockno
      → ⊥
  other_block dev blockno none j lj p q =
      false-ne_true (sym (none j lj) ∙ (rw (eq→== _ _ p, eq→== _ _ q) refl))

  -- A buf that takes a block no other has
  pub recycled-IsCache :
      (b dev blockno : ℕ)
      → ((i : ℕ) → i < nbuf → holds c dev blockno i ≡ false)
      → IsCache (rebuf b (recycled dev blockno (c.buf b)) c) l
  recycled-IsCache b dev blockno none =
      let f : ℕ → Buf = update c.buf b (recycled dev blockno (c.buf b)) in
      let at_b : (i : ℕ) → (i == b) ≡ true → f i ≡ recycled dev blockno (c.buf b) =
        λ i e. update_self c.buf b (recycled dev blockno (c.buf b)) i (==→eq i b e) in
      let rest : (i : ℕ) → (i == b) ≡ false → f i ≡ c.buf i =
        λ i e. update-ne c.buf b (recycled dev blockno (c.buf b)) i (==→ne i b e) in
      let new : (i j : ℕ)
          → j < nbuf
          → (i == b) ≡ true
          → (j == b) ≡ false
          → (f i).dev ≡ (f j).dev
          → (f i).blockno ≡ (f j).blockno
          → ⊥ =
        λ i j lj e n p q.
          other_block dev blockno none j lj
            (ap (λ x. x.dev) (sym (rest j n)) ∙ sym p ∙ ap (λ x. x.dev) (at_b i e))
            (ap (λ x. x.blockno) (sym (rest j n)) ∙ sym q ∙ ap (λ x. x.blockno) (at_b i e)) in
      record {
        order = ring_kept f;
        unique = λ i j li lj p q r. elim (Bool-cases (i == b)) [
          | inl ib ↦ elim (Bool-cases (j == b)) [
            | inl jb ↦ ==→eq i b ib ∙ sym (==→eq j b jb)
            | inr jb ↦ absurd (new i j lj ib jb p q)
          ]
          | inr ib ↦ elim (Bool-cases (j == b)) [
            | inl jb ↦ absurd (new j i li jb ib (sym p) (sym q))
            | inr jb ↦
                v.unique i j li lj
                  (ap (λ x. x.dev) (sym (rest i ib)) ∙ p ∙ ap (λ x. x.dev) (rest j jb))
                  (ap (λ x. x.blockno) (sym (rest i ib)) ∙ q ∙ ap (λ x. x.blockno) (rest j jb))
                  (λ h. r (ap (λ x. x.dev) (rest i ib) ∙ h))
          ]
        ];
      }

  pub take_buf-Gets :
      (dev blockno : ℕ) (o r : Lookup)
      → Hit c dev blockno l o
      → Spare c (backwards l) r
      → Gets c l dev blockno (take_buf dev blockno c o r)
  unfolding take_buf
  take_buf-Gets dev blockno _ r (ready_one b k h f) sp =
      hit b (at_cut (λ x. x < nbuf) b l k v.order.inside) h f
        (rebuf-IsCache b (make_busy (c.buf b)) refl refl)
  take_buf-Gets dev blockno _ r (busy_one b k h f) sp =
      waits b (at_cut (λ x. x < nbuf) b l k v.order.inside) h f
  take_buf-Gets dev blockno _ _ (missing all) (spare b k h before) =
      recycles b
        (at_cut (λ x. x < nbuf) b (backwards l) k (All-backwards (λ x. x < nbuf) l v.order.inside))
        (in_ring (λ i. holds c dev blockno i ≡ false) all) h k before
        (recycled-IsCache b dev blockno (in_ring (λ i. holds c dev blockno i ≡ false) all))
  take_buf-Gets dev blockno _ _ (missing all) (none_spare busy) =
      all_taken (in_ring (λ i. holds c dev blockno i ≡ false) all)
        (in_ring (λ i. is_clean c i ≡ false) (All-forwards (λ i. is_clean c i ≡ false) l busy))

  -- bget returns the buf of the block that it was asked for, busy for its caller: the one that has
  -- it, with no other change of the cache; or else the least recently used one that is neither busy
  -- nor dirty, with the numbers of the block and B_BUSY as its only flag, and no other change. It sleeps only on a busy buf of the block, and panics only when no buf has the block
  -- and all are busy or dirty. No block has two bufs afterwards.
  pub bget-Gets : (dev blockno : ℕ) → Gets c l dev blockno (bget dev blockno c)
  unfolding bget
  bget-Gets dev blockno =
      let out = head_out l v.order.inside in
      take_buf-Gets dev blockno _ _
        (find_cached-Hit c dev blockno (suc nbuf) head l (omega (arith, v.order.size)) out
          v.order.ring)
        (find_clean-Spare c (suc nbuf) head (backwards l)
          (omega (arith, v.order.size, length-backwards l)) (All-backwards (λ x. head ≢ x) l out)
          (Chain-backwards c.next c.prev head l head v.order.ring))

init_from-dev :
    (n b : ℕ) (c : Bcache)
    → ((i : ℕ) → i < b → (c.buf i).dev ≡ no_dev)
    → (i : ℕ) → i < b + n
    → ((init_from n b c).buf i).dev ≡ no_dev
unfolding init_from
init_from-dev zero b c all i lt = all i (omega (arith, lt))
init_from-dev (suc n) b c all i lt =
    let x : Buf = record (c.buf b) { dev = no_dev } in
    init_from-dev n (b + 1) (link_first b (record c { buf = update c.buf b x }))
      (λ j lj. elim (Bool-cases (j == b)) [
        | inl e ↦ ap (λ y. y.dev) (update_self c.buf b x j (==→eq j b e))
        | inr ne ↦
            ap (λ y. y.dev) (update-ne c.buf b x j (==→ne j b ne))
            ∙ all j (omega (arith, lj, ==→ne j b ne))
      ])
      i (omega (arith, lt))

pub binit-dev : (c : Bcache) (i : ℕ) → i < nbuf → ((binit c).buf i).dev ≡ no_dev
unfolding binit
binit-dev c i lt =
    init_from-dev nbuf 0
      (record c { prev = update c.prev head head; next = update c.next head head })
      (λ j lj. absurd (omega (arith, lj))) i (omega (arith, lt))

-- binit makes a cache of all the bufs, none of which has a block.
pub binit-IsCache : (c : Bcache) → IsCache (binit c) (down nbuf)
binit-IsCache c = record {
  order = binit-Order c;
  unique = λ i j li lj p q r. absurd (r (binit-dev c i li));
}
