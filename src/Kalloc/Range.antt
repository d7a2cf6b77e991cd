-- ===== src/Kalloc/Range.antt =====
-- freerange: the pages of a range of addresses, one after the other, on the free list.
use cmpt.Prelude.{
  ℕ, zero, suc, ◌+◌, ◌-◌, ◌*◌, ◌/◌, ◌%◌, ◌^◌, ◌<◌, ◌≤◌, ◌≡◌, refl, ◌∙◌, ap, arith, true, false,
  some, List, ◌∷◌, Bool-cases, inl, inr, ◌⊎◌, leb, ltb, tests,
}
use cmpt.Kalloc.{Kmem, page_size, kfree, freerange, free_pages, page_round_up, phys_stop, kern_base}
use cmpt.Kalloc.Chain.{has, IsPage, Chain, kfree-Chain, freed}

-- `n` pages from p on, the last in front, before the pages xs
unfoldable pub pages : ℕ → ℕ → List ℕ → List ℕ
pages zero p xs = xs
pages (suc n) p xs = pages n (p + page_size) (p ∷ xs)

module _ (end : ℕ) where
  free_pages_step :
      (n p q vend : ℕ) (k k' : Kmem)
      → (p + page_size) % 2 ^ 32 ≡ q
      → leb q vend ≡ true
      → kfree end p k ≡ some k'
      → free_pages end (suc n) p vend k ≡ free_pages end n q vend k'
  unfolding free_pages
  free_pages_step n p q vend k k' next goes runs =
      rw (free_pages, next, goes, runs) (ap (λ r. free_pages end n r vend k') next)

  free_pages-Chain :
      (n p vend : ℕ) (k : Kmem) (xs : List ℕ)
      → p % page_size ≡ 0
      → end ≤ p
      → kern_base ≤ p
      → (p + n * page_size ≤ vend) ⊎ (n ≡ 0)
      → vend < p + n * page_size + page_size
      → p ≤ kern_base + phys_stop + page_size
      → vend ≤ kern_base + phys_stop
      → ((w : ℕ) → has w xs ≡ true → w < p)
      → Chain end k.mem k.freelist xs
      → (k' : Kmem) × (free_pages end (suc n) p vend k ≡ some k')
        × Chain end k'.mem k'.freelist (pages n p xs)
  unfolding free_pages pages
  free_pages-Chain zero p vend k xs al lo ba hi lt most top below c =
      let ends : leb ((p + page_size) % 2 ^ 32) vend ≡ false = ground arith in
      rw (free_pages, ends) (k, refl, c)
  free_pages-Chain (suc n) p vend k xs al lo ba hi lt most top below c =
      let page : IsPage end p = record { aligned = al; above = lo; mapped = (ba, omega arith) } in
      let out : has p xs ≡ false = absent in
      let (runs, chain) = kfree-Chain end k xs c p page out in
      let goes : leb (p + page_size) vend ≡ true = ground arith in
      let next : (p + page_size) % 2 ^ 32 ≡ p + page_size = omega arith in
      let (k', more, chain') =
        free_pages-Chain n (p + page_size) vend (freed end k xs c p) (p ∷ xs) (omega arith)
          (omega arith) (omega arith) (inl (omega arith)) (omega arith) (omega arith) top
          (λ w h. ground (arith, below w)) chain in
      (
        k',
        free_pages_step (suc n) p (p + page_size) vend k (freed end k xs c p) next goes runs ∙ more,
        chain',
      )
    where
      absent : has p xs ≡ false
      absent = elim (Bool-cases (has p xs)) [
        | inl there ↦ absurd (omega (arith, below p there))
        | inr out ↦ out
      ]

-- freerange over a range of kernel addresses above `end`, with all the pages that are already free
-- below it, does not panic, and puts every whole page of the range on the free list, once.
pub freerange-Chain :
    (end vstart vend : ℕ) (k : Kmem) (xs : List ℕ)
    → end ≤ vstart
    → kern_base ≤ vstart
    → vstart ≤ vend
    → vend ≤ kern_base + phys_stop
    → ((w : ℕ) → has w xs ≡ true → w < vstart)
    → Chain end k.mem k.freelist xs
    → (k' : Kmem) × (freerange end vstart vend k ≡ some k')
      × Chain end k'.mem k'.freelist
          (pages ((vend - page_round_up vstart) / page_size) (page_round_up vstart) xs)
unfolding freerange
freerange-Chain end vstart vend k xs lo ba le hi below c =
    free_pages-Chain end ((vend - page_round_up vstart) / page_size) (page_round_up vstart) vend k
      xs (omega arith) (omega arith) (omega arith) reach (omega arith) (omega arith) hi
      (λ w h. omega (arith, below w h)) c
  where
    reach :
        (page_round_up vstart + (vend - page_round_up vstart) / page_size * page_size ≤ vend)
        ⊎ ((vend - page_round_up vstart) / page_size ≡ 0)
    reach = elim (Bool-cases (ltb vend (page_round_up vstart))) [
      | inl gt ↦ inr (omega tests)
      | inr le ↦ inl (omega tests)
    ]
