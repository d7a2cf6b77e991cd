-- ===== src/Kalloc/Owners.antt =====
-- The kernel's parts as owners of pages: they allocate, free what they own, and write inside it.
use cmpt.Prelude.{
  ℕ, suc, ◌+◌, ◌<◌, ◌≡◌, ◌≢◌, ◌↔◌, refl, ◌∙◌, sym, ap, subst, arith, true, false, ◌||◌, some, List,
  [], ◌∷◌, ◌++◌, ◌==◌, Bool-cases, inl, inr, ◌⊎◌, length, length-append, some_eq, ==→eq, eq→==,
  ne→==,
}
use cmpt.Kalloc.{Memory, Kmem, load, fill, page_size, kfree, kalloc}
use cmpt.Kalloc.Chain.{
  has, IsPage, Chain, Apart, Chain-frame, has-IsPage, load-Apart, kfree-Chain, freed, load-store,
  head_small,
}

pub record System : Type 0 where
  pub kmem : Kmem
  pub owned : List ℕ

module _ (end : ℕ) where
  pub data Step (s : System) : System → Type 0 where
    allocates :
        {v : ℕ} {k : Kmem}
        → kalloc s.kmem ≡ (v, k)
        → v ≢ 0
        → Step s (record { kmem = k; owned = v ∷ s.owned })
    exhausted : {k : Kmem} → kalloc s.kmem ≡ (0, k) → Step s (record s { kmem = k })
    frees :
        {k : Kmem} (pre : List ℕ) (v : ℕ) (post : List ℕ)
        → s.owned ≡ pre ++ (v ∷ post)
        → kfree end v s.kmem ≡ some k
        → Step s (record { kmem = k; owned = pre ++ post })
    scribbles :
        (v : ℕ) (mem : Memory)
        → has v s.owned ≡ true
        → ((a : ℕ) → Apart v a → mem a ≡ s.kmem.mem a)
        → Step s (record s { kmem = record s.kmem { mem = mem } })

  pub data Reach (s₀ : System) : System → Type 0 where
    start : Reach s₀ s₀
    later : {s t : System} → Reach s₀ s → Step s t → Reach s₀ t

-- no page twice
abbrev pub Distinct : List ℕ → Type 0
Distinct [] = Unit
Distinct (x ∷ xs) = (has x xs ≡ false) × Distinct xs

-- The pages are either free, once in the list, or owned, once.
pub record Divided (end total : ℕ) (s : System) : Type 0 where
  pub free : List ℕ
  pub chain : Chain end s.kmem.mem s.kmem.freelist free
  pub owned_page : (w : ℕ) → has w s.owned ≡ true → IsPage end w × (has w free ≡ false)
  pub distinct : Distinct s.owned
  pub count : length free + length s.owned ≡ total

has-append : (a : ℕ) (xs ys : List ℕ) → has a (xs ++ ys) ≡ (has a xs || has a ys)
has-append a [] ys = refl
has-append a (x ∷ xs) ys = ground (arith, has-append a xs ys)

has-middle :
    (w : ℕ) (xs : List ℕ) (v : ℕ) (ys : List ℕ)
    → has w (xs ++ ys) ≡ true
    → has w (xs ++ (v ∷ ys)) ≡ true
has-middle w xs v ys h = ground (arith, has-append w xs ys, has-append w xs (v ∷ ys))

has-at : (xs : List ℕ) (v : ℕ) (ys : List ℕ) → has v (xs ++ (v ∷ ys)) ≡ true
has-at xs v ys = ground (arith, has-append v xs (v ∷ ys))

Distinct-middle :
    (xs : List ℕ) (v : ℕ) (ys : List ℕ)
    → Distinct (xs ++ (v ∷ ys))
    → Distinct (xs ++ ys) × (has v (xs ++ ys) ≡ false)
Distinct-middle [] v ys (out, d) = (d, out)
Distinct-middle (x ∷ xs) v ys (out, d) =
    let (d', out') = Distinct-middle xs v ys d in
    (
      (ground (arith, has-append x xs ys, has-append x xs (v ∷ ys)), d'),
      ground (arith, has-append x xs (v ∷ ys)),
    )

length-middle :
    (pre : List ℕ) (v : ℕ) (post : List ℕ) → length (pre ++ (v ∷ post)) ≡ suc (length (pre ++ post))
length-middle pre v post = rw length-append (rw length-append (omega arith))

kalloc_nil : (k : Kmem) → k.freelist ≡ 0 → kalloc k ≡ (0, k)
unfolding kalloc
kalloc_nil k e = rw (eq→== k.freelist 0 e)

kalloc_cons :
    (k : Kmem)
    → k.freelist ≢ 0
    → kalloc k ≡ (k.freelist, record k { freelist = load k.mem k.freelist })
unfolding kalloc
kalloc_cons k ne = rw (ne→== k.freelist 0 ne)

-- kalloc writes nothing.
pub kalloc_mem : (k : Kmem) → (kalloc k).1.mem ≡ k.mem
unfolding kalloc
kalloc_mem k = ground arith

page-ne_zero : {end v : ℕ} → IsPage end v → v ≢ 0
page-ne_zero page e = absurd (omega (arith, page.mapped))

module _ (end total : ℕ) where
  pub record Allocated (s : System) (out : ℕ × Kmem) : Type 0 where
    pub page : IsPage end out.0
    pub fresh : has out.0 s.owned ≡ false
    pub after : Divided end total (record { kmem = out.1; owned = out.0 ∷ s.owned })

  -- kalloc answers 0 and changes nothing if every page is owned; otherwise it answers a page that
  -- nobody owns.
  kalloc_outcome :
      (s : System) (free : List ℕ)
      → Chain end s.kmem.mem s.kmem.freelist free
      → ((w : ℕ) → has w s.owned ≡ true → IsPage end w × (has w free ≡ false))
      → Distinct s.owned
      → length free + length s.owned ≡ total
      → ((kalloc s.kmem ≡ (0, s.kmem)) × (length s.owned ≡ total)) ⊎ Allocated s (kalloc s.kmem)
  kalloc_outcome s [] c owned distinct count = inl (kalloc_nil s.kmem c, omega arith)
  kalloc_outcome s (x ∷ xs) (e, page, out, c) owned distinct count =
      let ne : s.kmem.freelist ≢ 0 = λ z. page-ne_zero page (sym e ∙ z) in
      rw (kalloc_cons s.kmem ne) (
        inr (record {
          page = subst (IsPage end) (sym e) page;
          fresh = fresh;
          after = record {
            free = xs;
            chain = subst (λ y. Chain end s.kmem.mem (load s.kmem.mem y) xs) (sym e) c;
            owned_page = λ w h. elim (Bool-cases (w == s.kmem.freelist)) [
              | inl same ↦ let q : w ≡ x = ==→eq w _ same ∙ e in (rw q page, rw q out)
              | inr other ↦ let old = owned w (ground arith) in (old.0, ground arith)
            ];
            distinct = (fresh, distinct);
            count = omega arith;
          };
        }))
    where
      fresh : has s.kmem.freelist s.owned ≡ false
      fresh = elim (Bool-cases (has s.kmem.freelist s.owned)) [
        | inl taken ↦ ground (arith, owned s.kmem.freelist taken)
        | inr out' ↦ out'
      ]

  pub kalloc-Divided :
      (s : System)
      → Divided end total s
      → ((kalloc s.kmem ≡ (0, s.kmem)) × (length s.owned ≡ total)) ⊎ Allocated s (kalloc s.kmem)
  kalloc-Divided s d = kalloc_outcome s d.free d.chain d.owned_page d.distinct d.count

  pub Step-Divided : {s t : System} → Step end s t → Divided end total s → Divided end total t
  Step-Divided {s} (allocates e ne) d = elim (kalloc-Divided s d) [
    | inl (none_left, _) ↦ absurd (ne (ap (λ (o : ℕ × Kmem). o.0) (sym e ∙ none_left)))
    | inr a ↦
        subst (λ (o : ℕ × Kmem). Divided end total (record { kmem = o.1; owned = o.0 ∷ s.owned })) e
          a.after
  ]
  Step-Divided {s} (exhausted {k} e) d = elim (kalloc-Divided s d) [
    | inl (same, _) ↦
        subst (λ (o : ℕ × Kmem). Divided end total (record s { kmem = o.1 })) (sym same ∙ e) d
    | inr a ↦ absurd (page-ne_zero a.page (ap (λ (o : ℕ × Kmem). o.0) e))
  ]
  Step-Divided {s} (frees {k} pre v post split e) d =
      let h : has v s.owned ≡ true = rw split (has-at pre v post) in
      let (page, out) = d.owned_page v h in
      let (runs, chain) = kfree-Chain end s.kmem d.free d.chain v page out in
      let same : freed end s.kmem d.free d.chain v ≡ k = some_eq (sym runs ∙ e) in
      let (distinct, gone) = Distinct-middle pre v post (subst Distinct split d.distinct) in
      let length_eq = ap length split ∙ length-middle pre v post in
      rw (← same) (record {
        free = v ∷ d.free;
        chain = chain;
        owned_page = λ w hw.
            let old = d.owned_page w (rw split (has-middle w pre v post hw)) in
            (old.0, ground arith);
        distinct = distinct;
        count = omega (arith, d.count, length_eq);
      })
  Step-Divided {s} (scribbles v mem h same) d =
      let (page, out) = d.owned_page v h in
      record {
        free = d.free;
        chain =
            Chain-frame end s.kmem.mem mem d.free s.kmem.freelist
              (λ w hw.
                load-Apart s.kmem.mem mem v w same page.aligned
                  (has-IsPage end s.kmem.mem d.free s.kmem.freelist w d.chain hw).aligned
                  (λ e. ground arith))
              d.chain;
        owned_page = d.owned_page;
        distinct = d.distinct;
        count = d.count;
      }

  Reach-Divided : {s₀ s : System} → Divided end total s₀ → Reach end s₀ s → Divided end total s
  Reach-Divided d start = d
  Reach-Divided d (later r st) = Step-Divided st (Reach-Divided d r)

-- From memory divided into free and owned pages, `total` in all, whatever the owners then do with
-- their pages, in any order: kalloc never hands out a page that is
-- owned, what it hands out is a page of the allocator's range, and it answers 0 exactly when all
-- `total` pages are owned.
pub kalloc_exclusive :
    {end total : ℕ} {s₀ s : System} {v : ℕ} {k : Kmem}
    → Divided end total s₀
    → Reach end s₀ s
    → kalloc s.kmem ≡ (v, k)
    → ((v ≡ 0) ↔ (length s.owned ≡ total)) × (v ≢ 0 → IsPage end v × (has v s.owned ≡ false))
kalloc_exclusive {end} {total} {s₀} {s} {v} d r e =
    elim (kalloc-Divided end total s (Reach-Divided end total d r)) [
      | inl (same, all) ↦
          let z : v ≡ 0 = ap (λ (o : ℕ × Kmem). o.0) (sym e ∙ same) in
          ((λ _. all, λ _. z), λ ne. absurd (ne z))
      | inr a ↦
          let q : (kalloc s.kmem).0 ≡ v = ap (λ (o : ℕ × Kmem). o.0) e in
          let ne = page-ne_zero a.page in
          let below : length s.owned < total = omega (arith, a.after.count) in
          (
            (λ z. absurd (ne (q ∙ z)), λ all. absurd (omega arith)),
            λ _. subst (λ y. IsPage end y × (has y s.owned ≡ false)) q (a.page, a.fresh),
          )
    ]

-- In such memory an owner can give its page back: kfree does not panic, and the page is the next one handed out.
pub kalloc-kfree :
    {end total : ℕ} {s₀ s : System} (v : ℕ)
    → Divided end total s₀
    → Reach end s₀ s
    → has v s.owned ≡ true
    → (k : Kmem) × (kfree end v s.kmem ≡ some k)
      × ((kalloc k).0 ≡ v)
      × ((kalloc k).1.freelist ≡ s.kmem.freelist)
kalloc-kfree {end} {total} {s₀} {s} v d r h =
    let now = Reach-Divided end total d r in
    let (page, out) = now.owned_page v h in
    let (runs, chain) = kfree-Chain end s.kmem now.free now.chain v page out in
    let k = freed end s.kmem now.free now.chain v in
    let got = kalloc_cons k (page-ne_zero page) in
    (
      k,
      runs,
      ap (λ (o : ℕ × Kmem). o.0) got,
      ap (λ (o : ℕ × Kmem). o.1.freelist) got
          ∙ load-store (fill s.kmem.mem v 1 page_size) v s.kmem.freelist
              (head_small end s.kmem now.free now.chain),
    )
