-- ===== src/Kalloc/Chain.antt =====
-- The free list as a list of pages.
use cmpt.Prelude.{
  ℕ, ◌+◌, ◌%◌, ◌^◌, ◌<◌, ◌≤◌, ◌≡◌, ◌≢◌, refl, arith, Bool, true, false, ◌||◌, some, List, [], ◌∷◌,
  ◌==◌, ltb, ◌⊎◌, inl, inr, Bool-cases, tests, ==→eq,
}
use cmpt.Kalloc.{Memory, Kmem, load, store, fill, page_size, phys_stop, kern_base, bad_page, kfree}

-- membership, as a test
abbrev pub has : ℕ → List ℕ → Bool
has a [] = false
has a (x ∷ xs) = (a == x) || has a xs

-- a page that the allocator may hold
pub record IsPage (end v : ℕ) : Type 0 where
  pub aligned : v % page_size ≡ 0
  pub above : end ≤ v
  pub mapped : (kern_base ≤ v) × (v < kern_base + phys_stop)

-- From p the `next` words lead through the distinct pages xs to the null pointer.
abbrev pub Chain : ℕ → Memory → ℕ → List ℕ → Type 0
Chain end mem p [] = p ≡ 0
Chain end mem p (x ∷ xs) =
    (p ≡ x) × IsPage end x × (has x xs ≡ false) × Chain end mem (load mem x) xs

pub load-store : (mem : Memory) (v x : ℕ) → x < 2 ^ 32 → load (store mem v x) v ≡ x
unfolding load store
load-store mem v x small = ground arith

-- kfree writes inside the page only.
abbrev pub Apart : ℕ → ℕ → Type 0
Apart v a = (a < v) ⊎ (v + page_size ≤ a)

pub kfree_byte :
    (mem : Memory) (v x a : ℕ) → Apart v a → store (fill mem v 1 page_size) v x a ≡ mem a
unfolding store fill
kfree_byte mem v x a apart = ground arith

-- Two different pages do not overlap.
pub Apart-page :
    (v w k : ℕ) → v % page_size ≡ 0 → w % page_size ≡ 0 → w ≢ v → k < page_size → Apart v (w + k)
Apart-page v w k va wa ne lt = elim (Bool-cases (ltb w v)) [
  | inl below ↦ inl (omega tests)
  | inr above ↦ inr (omega tests)
]

-- A change of memory inside one page leaves the word of another.
pub load-Apart :
    (mem mem' : Memory) (v w : ℕ)
    → ((a : ℕ) → Apart v a → mem' a ≡ mem a)
    → v % page_size ≡ 0
    → w % page_size ≡ 0
    → w ≢ v
    → load mem' w ≡ load mem w
unfolding load
load-Apart mem mem' v w same va wa ne =
    let out = λ (k : ℕ) (lt : k < page_size). same (w + k) (Apart-page v w k va wa ne lt) in
    let first : mem' w ≡ mem w = same w (omega (arith, Apart-page v w 0 va wa ne (omega arith))) in
    rw (first, out 1 (omega arith), out 2 (omega arith), out 3 (omega arith))

module _ (end : ℕ) (mem mem' : Memory) where
  -- The list survives any change of memory that keeps the words of its pages.
  pub Chain-frame :
      (xs : List ℕ) (p : ℕ)
      → ((w : ℕ) → has w xs ≡ true → load mem' w ≡ load mem w)
      → Chain end mem p xs
      → Chain end mem' p xs
  Chain-frame [] p same c = c
  Chain-frame (x ∷ xs) p same (e, page, out, c) = (
    e,
    page,
    out,
    rw (same x (ground arith)) (Chain-frame xs (load mem x) (λ w h. same w (ground arith)) c),
  )

pub has-IsPage :
    (end : ℕ) (mem : Memory) (xs : List ℕ) (p w : ℕ)
    → Chain end mem p xs
    → has w xs ≡ true
    → IsPage end w
has-IsPage end mem [] p w c h = ground arith
has-IsPage end mem (x ∷ xs) p w (e, page, out, c) h = elim (Bool-cases (w == x)) [
  | inl here ↦ rw (==→eq w x here) page
  | inr later ↦ has-IsPage end mem xs (load mem x) w c (ground arith)
]

good_page : (end v : ℕ) → IsPage end v → bad_page end v ≡ false
unfolding bad_page
good_page end v page = ground (arith, page.aligned, page.above, page.mapped)

module _ (end : ℕ) (k : Kmem) (xs : List ℕ) (c : Chain end k.mem k.freelist xs) where
  -- what kfree leaves
  abbrev pub freed : ℕ → Kmem
  freed v = record k { mem = store (fill k.mem v 1 page_size) v k.freelist; freelist = v }

  pub head_small : k.freelist < 2 ^ 32
  head_small = head xs c
    where
      head : (ys : List ℕ) → Chain end k.mem k.freelist ys → k.freelist < 2 ^ 32
      head [] e = omega arith
      head (y ∷ ys) d = omega (arith, d.0, d.1.mapped)

  -- kfree of a page that is not free puts it in front of the list.
  pub kfree-Chain :
      (v : ℕ)
      → IsPage end v
      → has v xs ≡ false
      → (kfree end v k ≡ some (freed v)) × Chain end (freed v).mem v (v ∷ xs)
  unfolding kfree
  kfree-Chain v page out = (
    rw (good_page end v page),
    (refl, page, out, rw (load-store (fill k.mem v 1 page_size) v k.freelist head_small) kept),
  )
    where
      kept : Chain end (freed v).mem k.freelist xs
      kept =
          Chain-frame end k.mem (freed v).mem xs k.freelist
            (λ w h.
              load-Apart k.mem (freed v).mem v w (kfree_byte k.mem v k.freelist) page.aligned
                (has-IsPage end k.mem xs k.freelist w c h).aligned (λ e. ground arith))
            c
