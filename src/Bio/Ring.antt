-- ===== src/Bio/Ring.antt =====
-- The list of bufs behind head, most recently used first: taking a buf out, putting it in front.
use cmpt.Prelude.{
  some, true, false, inl, inr, length-append, ℕ, length, zero, suc, ◌+◌, ◌<◌, ◌≤◌, ◌≡◌, ◌≢◌, refl,
  sym, ◌∙◌, ap, subst, arith, All, List, [], ◌∷◌, ◌++◌, update, update-ne, update_self,
}
use cmpt.Bio.{Bcache, head, nbuf, link_first, unlink, binit, init_from, brelse, no_dev}
use cmpt.Bio.Chain.{
  Chain, Out, Distinct, Chain-append, Chain-link, Chain-unlink, Distinct-middle, All-middle,
  All-insert, Cut, cut_at, cut-Out, Chain-first, Out-right,
}

-- The bufs behind head
abbrev pub Ring : Bcache → List ℕ → Type 0
Ring c l = Chain c.next c.prev head l head

-- The list without the claim that every buf is in it
record Linked (c : Bcache) (l : List ℕ) : Type 0 where
  ring : Ring c l
  inside : All (λ b. b < nbuf) l
  distinct : Distinct l

-- l has every buf once, in the order of the links.
pub record Order (c : Bcache) (l : List ℕ) : Type 0 where
  pub ring : Ring c l
  pub inside : All (λ b. b < nbuf) l
  pub distinct : Distinct l
  pub complete : (b : ℕ) → b < nbuf → Cut b l
  pub size : length l ≡ nbuf

pub head_out : (l : List ℕ) → All (λ b. b < nbuf) l → Out head l
head_out [] p = tt
head_out (x ∷ l) (lt, p) = (λ e. omega (arith, e, lt), head_out l p)

link_first-Linked :
    (b : ℕ) (c : Bcache) (l : List ℕ)
    → b < nbuf
    → Out b l
    → Linked c l
    → Linked (link_first b c) (b ∷ l)
unfolding link_first
link_first-Linked b c l lt o k =
    let ne : b ≢ head = λ e. omega (arith, e, lt) in
    record {
      ring =
          subst
            (λ z.
              Chain (update (update c.next b (c.next head)) head b)
                (update (update c.prev b head) z b) head (b ∷ l) head)
            (sym (update-ne c.next b (c.next head) head (λ e. ne (sym e))))
            (Chain-link c.next c.prev head b l ne o (head_out l k.inside) k.distinct k.ring);
      inside = (lt, k.inside);
      distinct = (o, k.distinct);
    }

unlink-Linked :
    (c : Bcache) (l : List ℕ) (b : ℕ) (m : List ℕ)
    → Linked c (l ++ b ∷ m)
    → Linked (unlink b c) (l ++ m)
unfolding unlink
unlink-Linked c l b m k =
    let (ob, d) = Distinct-middle l b m k.distinct in
    let (lt, all) = All-middle (λ x. x < nbuf) l b m k.inside in
    let ne : b ≢ head = λ e. omega (arith, e, lt) in
    let (p, q) = Chain-append c.next c.prev head l b m head k.ring in
    let b_next = Chain-first c.next c.prev b b m head ne (Out-right b l m ob) q in
    let same : update c.prev (c.next b) (c.prev b) b ≡ c.prev b =
      update-ne c.prev (c.next b) (c.prev b) b b_next in
    record {
      ring =
          subst
            (λ z.
              Chain (update c.next z (c.next b)) (update c.prev (c.next b) (c.prev b)) head (l ++ m)
                head)
            (sym same)
            (Chain-unlink c.next c.prev head l b m head (head_out (l ++ m) all) d
              (head_out (l ++ m) all) p q);
      inside = all;
      distinct = d;
    }

module _ (c : Bcache) (l : List ℕ) (o : Order c l) where
  Order-Linked : Linked c l
  Order-Linked = record { ring = o.ring; inside = o.inside; distinct = o.distinct }

-- A list that has every buf, and no other, once
Linked-Order :
    (c : Bcache) (l : List ℕ)
    → Linked c l
    → ((b : ℕ) → b < nbuf → Out b l → ⊥)
    → length l ≡ nbuf
    → Order c l
Linked-Order c l k all size = record {
  ring = k.ring;
  inside = k.inside;
  distinct = k.distinct;
  complete = λ b lt. elim (cut_at b l) [ inl out ↦ absurd (all b lt out) | inr cut ↦ cut ];
  size = size;
}

-- The bufs below n, the last one first
pub down : ℕ → List ℕ
down zero = []
down (suc n) = n ∷ down n

down-all : (n b : ℕ) → b < n → Out b (down n) → ⊥
unfolding down
down-all zero b lt out = omega (arith, lt)
down-all (suc n) b lt (ne, out) = down-all n b (omega (arith, lt, ne)) out

out-down : (n b : ℕ) → n ≤ b → Out b (down n)
unfolding down
out-down zero b le = tt
out-down (suc n) b le = (λ e. omega (arith, e, le), out-down n b (omega (arith, le)))

length-down : (n : ℕ) → length (down n) ≡ n
unfolding down
length-down zero = refl
length-down (suc n) = ap suc (length-down n)

init_from-Linked :
    (n b : ℕ) (c : Bcache)
    → b + n ≤ nbuf
    → Linked c (down b)
    → Linked (init_from n b c) (down (b + n))
unfolding init_from down
init_from-Linked zero b c le k = let e : b + 0 ≡ b = omega arith in rw e k
init_from-Linked (suc n) b c le k =
    let e : b + suc n ≡ b + 1 + n = omega arith in
    let f : b + 1 ≡ suc b = omega arith in
    rw (e, f)
      (init_from-Linked n (suc b) _ (omega arith) (
        link_first-Linked b (record c { buf = update c.buf b (record (c.buf b) { dev = no_dev }) })
          (down b) (omega arith) (out-down b b (omega arith))
          (record { ring = k.ring; inside = k.inside; distinct = k.distinct })))

abbrev blank_ring : Bcache → Bcache
blank_ring c = record c { prev = update c.prev head head; next = update c.next head head }

no_bufs-Linked : (c : Bcache) → Linked (blank_ring c) (down 0)
unfolding down
no_bufs-Linked c = record {
  ring = (update_self c.next head head head refl, update_self c.prev head head head refl);
  inside = tt;
  distinct = tt;
}

-- binit makes a ring of all the bufs, the last one first.
pub binit-Order : (c : Bcache) → Order (binit c) (down nbuf)
unfolding binit
binit-Order c =
    Linked-Order (binit c) (down nbuf)
      (init_from-Linked nbuf 0 (blank_ring c) (omega arith) (no_bufs-Linked c)) (down-all nbuf)
      (length-down nbuf)

-- What brelse leaves: b first, and the other bufs in their order
pub record Released (b : ℕ) (c : Bcache) (l : List ℕ) (cut : Cut b l) (c' : Bcache) : Type 0 where
  pub order : Order c' (b ∷ cut.before ++ cut.after)
  pub bufs : c'.buf ≡ update c.buf b (record (c.buf b) { busy = false })

moved-all :
    (b : ℕ) (l : List ℕ) (cut : Cut b l) (x : ℕ) → Cut x l → Out x (b ∷ cut.before ++ cut.after) → ⊥
moved-all b l cut x at (ne, o) =
    cut-Out x l at
      (subst (Out x) (sym cut.whole) (All-insert (λ y. x ≢ y) cut.before b cut.after ne o))

length-moved :
    (b : ℕ) (l : List ℕ) (cut : Cut b l) → length (b ∷ cut.before ++ cut.after) ≡ length l
length-moved b l cut = omega (
  arith,
  ap length cut.whole,
  length-append cut.before (b ∷ cut.after),
  length-append cut.before cut.after,
)

-- brelse of a busy buf makes it the first of the ring and leaves the other bufs in their order; it
-- changes no buf but for the flag of this one.
pub brelse-Released :
    (b : ℕ) (c : Bcache) (l : List ℕ)
    → Order c l
    → b < nbuf
    → (c.buf b).busy ≡ true
    → (cut : Cut b l) → (c' : Bcache) × (brelse b c ≡ some c') × Released b c l cut c'
unfolding brelse link_first unlink
brelse-Released b c l o lt busy cut =
    let k : Linked (unlink b c) (cut.before ++ cut.after) =
      unlink-Linked c cut.before b cut.after (subst (Linked c) cut.whole (Order-Linked c l o)) in
    let (out, _) = Distinct-middle cut.before b cut.after (subst Distinct cut.whole o.distinct) in
    let m = link_first-Linked b (unlink b c) (cut.before ++ cut.after) lt out k in
    let c' : Bcache = record (link_first b (unlink b c)) {
      buf = update c.buf b (record (c.buf b) { busy = false });
    } in
    (
      c',
      rw busy refl,
      record {
        order =
            Linked-Order c' (b ∷ cut.before ++ cut.after)
              (record { ring = m.ring; inside = m.inside; distinct = m.distinct })
              (λ x lx. moved-all b l cut x (o.complete x lx)) (length-moved b l cut ∙ o.size);
        bufs = refl;
      },
    )
