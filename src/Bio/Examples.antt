-- ===== src/Bio/Examples.antt =====
-- A cache on concrete blocks.
use cmpt.Prelude.{
  ℕ, zero, suc, ◌+◌, ◌<◌, ◌≡◌, refl, sym, ◌∙◌, ap, arith, false, ◌==◌, some, update, update_self,
  update-ne, subst, ==→eq, ==→ne, Bool-cases, inl, inr, false-ne_true,
}
use cmpt.Bio.{
  Bcache, Buf, nbuf, head, link_first, no_dev, bget, bread, brelse, binit, recycled, MemDisk,
  find_clean, cached, init_from,
}
use cmpt.Bio.Chain.{Cut}
use cmpt.Bio.Ring.{down, brelse-Released, Released}
use cmpt.Bio.Scans.{holds}
use cmpt.Bio.Getting.{IsCache, rebuf, Gets, bget-Gets, binit-IsCache, binit-dev, recycled-IsCache}
use cmpt.Bio.Reading.{Shows, Coherent, Breads, bread-Breads}
use cmpt.Bio.ReadBack.{ReadBack, bread-bwrite}

-- Memory that is 0, as the loader leaves it
abbrev zeroed : Bcache
zeroed = record {
  buf = λ b. record {
    busy = false;
    valid = false;
    dirty = false;
    dev = 0;
    blockno = 0;
    bytes = λ i. 0;
  };
  prev = λ b. 0;
  next = λ b. 0;
}

abbrev ramdisk : MemDisk
ramdisk = record { disksize = 8; memdisk = λ n i. n }

abbrev fresh : Bcache
fresh = binit zeroed

none-holds : (i : ℕ) → i < nbuf → holds fresh 1 5 i ≡ false
none-holds i lt = rw (binit-dev zeroed i lt) refl

abbrev Idle : Buf → Type 0
Idle x = (x.valid ≡ false) × (x.dirty ≡ false)

init_from-Idle :
    (n b : ℕ) (c : Bcache) → ((i : ℕ) → Idle (c.buf i)) → (i : ℕ) → Idle ((init_from n b c).buf i)
unfolding init_from
init_from-Idle zero b c v i = v i
init_from-Idle (suc n) b c v i =
    let x : Buf = record (c.buf b) { dev = no_dev } in
    init_from-Idle n (b + 1) (link_first b (record c { buf = update c.buf b x }))
      (λ j. elim (Bool-cases (j == b)) [
        | inl e ↦ subst Idle (sym (update_self c.buf b x j (==→eq j b e))) (v b)
        | inr ne ↦ subst Idle (sym (update-ne c.buf b x j (==→ne j b ne))) (v j)
      ])
      i

fresh-Idle : (i : ℕ) → Idle (fresh.buf i)
unfolding binit
fresh-Idle i =
    init_from-Idle nbuf 0
      (record zeroed { prev = update zeroed.prev head head; next = update zeroed.next head head })
      (λ j. (refl, refl)) i

fresh-Shows : (i : ℕ) → Shows (fresh.buf i) ramdisk
fresh-Shows i = record {
  same = λ p q r. absurd (false-ne_true (sym (fresh-Idle i).0 ∙ p));
  dirty_valid = λ p. (fresh-Idle i).1;
}

-- The first buf has block 5 for a user.
abbrev block_5 : Buf
block_5 = recycled 1 5 (fresh.buf 0)

abbrev in_use : Bcache
in_use = rebuf 0 block_5 fresh

in_use-IsCache : IsCache in_use (down nbuf)
in_use-IsCache = recycled-IsCache fresh (down nbuf) (binit-IsCache zeroed) 0 1 5 none-holds

in_use-Coherent : Coherent in_use ramdisk
in_use-Coherent b lt idle = elim (Bool-cases (b == 0)) [
  | inl e ↦ absurd (
      false-ne_true (sym idle ∙ ap (λ x. x.busy) (update_self fresh.buf 0 block_5 b (==→eq b 0 e))))
  | inr ne ↦
      subst (λ x. Shows x ramdisk) (sym (update-ne fresh.buf 0 block_5 b (==→ne b 0 ne)))
        (fresh-Shows b)
]

bget-Gets_example : Gets fresh (down nbuf) 1 5 (bget 1 5 fresh)
bget-Gets_example = bget-Gets fresh (down nbuf) (binit-IsCache zeroed) 1 5

abbrev at_0 : Cut 0 (down nbuf)
at_0 = in_use-IsCache.order.complete 0 (omega arith)

brelse-Released_example :
    (c : Bcache) × (brelse 0 in_use ≡ some c) × Released 0 in_use (down nbuf) at_0 c
brelse-Released_example =
    brelse-Released 0 in_use (down nbuf) in_use-IsCache.order (omega arith) refl at_0

bread-Breads_example : Breads in_use (down nbuf) ramdisk 6 (bread 1 6 in_use ramdisk)
bread-Breads_example =
    bread-Breads in_use (down nbuf) ramdisk 6 (omega arith) in_use-IsCache in_use-Coherent

bread-bwrite_example : ReadBack in_use ramdisk 0
bread-bwrite_example =
    bread-bwrite in_use (down nbuf) ramdisk 0 in_use-IsCache in_use-Coherent (omega arith) refl refl
      (omega arith)

-- The buf that was released last is recycled last: binit has released 29 last.
oldest_first : find_clean 31 (fresh.prev head) fresh ≡ cached 0
unfolding find_clean binit init_from link_first
oldest_first = refl
