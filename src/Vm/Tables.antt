-- ===== src/Vm/Tables.antt =====
-- A page directory as a map from virtual addresses to entries.
use cmpt.Prelude.{
  ℕ, ◌+◌, ◌*◌, ◌%◌, ◌^◌, ◌<◌, ◌≡◌, ◌≢◌, ◌⊎◌, inl, inr, refl, ◌∙◌, sym, ap, subst, arith, true,
  false, ◌&&◌, List, ◌==◌, if◌then◌else◌, Bool-cases, ==→eq, ==→ne, ne→==,
}
use cmpt.Kalloc.{Memory, load, store, page_size}
use cmpt.Kalloc.Chain.{has, Apart, Apart-page, load-store}
use cmpt.Kalloc.Owners.{System, scribbles, Divided, Step-Divided}
use cmpt.Vm.{pdx, ptx, present, table_of}
use cmpt.Vm.Words.{store_other, load-store_other}

-- Entry i of the directory
abbrev pub pde : Memory → ℕ → ℕ → ℕ
pde mem dir i = load mem (dir + 4 * i)

-- The entry for va, 0 where its table is not there
abbrev pub pte_of : Memory → ℕ → ℕ → ℕ
pte_of mem dir va =
    if present (pde mem dir (pdx va))
    then load mem (table_of (pde mem dir (pdx va)) + 4 * ptx va)
    else 0

-- The directory's tables are pages of their own.
pub record Directory (mem : Memory) (owned : List ℕ) (dir : ℕ) : Type 0 where
  pub aligned : dir % page_size ≡ 0
  pub dir_owned : has dir owned ≡ true
  pub table_owned :
      (i : ℕ)
      → i < 1024
      → present (pde mem dir i) ≡ true
      → has (table_of (pde mem dir i)) owned ≡ true
  pub table_ne :
      (i : ℕ) → i < 1024 → present (pde mem dir i) ≡ true → table_of (pde mem dir i) ≢ dir
  pub apart :
      (i j : ℕ)
      → i < 1024
      → j < 1024
      → present (pde mem dir i) ≡ true
      → present (pde mem dir j) ≡ true
      → table_of (pde mem dir i) ≡ table_of (pde mem dir j)
      → i ≡ j

pub record Space (end total dir : ℕ) (s : System) : Type 0 where
  pub divided : Divided end total s
  pub directory : Directory s.kmem.mem s.owned dir

abbrev pub with_mem : System → Memory → System
with_mem s mem = record s { kmem = record s.kmem { mem = mem } }

-- Words of different pages, or different words of a page
pub word_ne :
    (v w i j : ℕ)
    → v % page_size ≡ 0
    → w % page_size ≡ 0
    → i < 1024
    → j < 1024
    → (v ≢ w) ⊎ (i ≢ j)
    → v + 4 * i ≢ w + 4 * j
word_ne v w i j va wa li lj (inl ne) e = ne (omega (arith, e))
word_ne v w i j va wa li lj (inr ne) e = ne (omega (arith, e))

pub load-store_word :
    (mem : Memory) (v w i j x : ℕ)
    → v % page_size ≡ 0
    → w % page_size ≡ 0
    → i < 1024
    → j < 1024
    → (w ≢ v) ⊎ (j ≢ i)
    → load (store mem (v + 4 * i) x) (w + 4 * j) ≡ load mem (w + 4 * j)
load-store_word mem v w i j x va wa li lj ne =
    load-store_other mem (v + 4 * i) x (w + 4 * j) (omega arith) (omega arith)
      (word_ne w v j i wa va lj li ne)

pub store-Apart :
    (mem : Memory) (v i x a : ℕ) → i < 1024 → Apart v a → store mem (v + 4 * i) x a ≡ mem a
store-Apart mem v i x a lt (inl below) = store_other mem (v + 4 * i) x a (inl (omega arith))
store-Apart mem v i x a lt (inr above) = store_other mem (v + 4 * i) x a (inr (omega arith))

-- A change inside page v leaves the words of page w.
pub load-page :
    (mem mem' : Memory) (v w i : ℕ)
    → ((a : ℕ) → Apart v a → mem' a ≡ mem a)
    → v % page_size ≡ 0
    → w % page_size ≡ 0
    → w ≢ v
    → i < 1024
    → load mem' (w + 4 * i) ≡ load mem (w + 4 * i)
unfolding load
load-page mem mem' v w i same va wa ne lt =
    let at = λ (k a : ℕ) (lk : k < page_size) (e : a ≡ w + k).
      same a (subst (Apart v) (sym e) (Apart-page v w k va wa ne lk)) in
    rw
      (
        at (4 * i) (w + 4 * i) (omega arith) refl,
        at (4 * i + 1) (w + 4 * i + 1) (omega arith) (omega arith),
        at (4 * i + 2) (w + 4 * i + 2) (omega arith) (omega arith),
        at (4 * i + 3) (w + 4 * i + 3) (omega arith) (omega arith),
      )
      refl

table_aligned : (x : ℕ) → table_of x % page_size ≡ 0
table_aligned x = omega arith

-- A memory with the same directory, and more owned pages
pub Directory-keep :
    {mem mem' : Memory} {owned owned' : List ℕ} {dir : ℕ}
    → Directory mem owned dir
    → ((i : ℕ) → i < 1024 → pde mem' dir i ≡ pde mem dir i)
    → ((w : ℕ) → has w owned ≡ true → has w owned' ≡ true)
    → Directory mem' owned' dir
Directory-keep {mem} {mem'} {owned} {owned'} {dir} d same more = record {
  aligned = d.aligned;
  dir_owned = more dir d.dir_owned;
  table_owned = λ i l p.
      rw (same i l) (more (table_of (pde mem dir i)) (d.table_owned i l (rw (← same i l) p)));
  table_ne = λ i l p. rw (same i l) (d.table_ne i l (rw (← same i l) p));
  apart = λ i j li lj p q e.
      d.apart i j li lj (rw (← same i li) p) (rw (← same j lj) q)
        (ap table_of (sym (same i li)) ∙ e ∙ ap table_of (same j lj));
}

-- *pte = x, for the entry of va
module _ {end total dir : ℕ} {s : System} (sp : Space end total dir s) (va x : ℕ)
    (here : present (pde s.kmem.mem dir (pdx va)) ≡ true) where
  abbrev pub after_store : Memory
  after_store = store s.kmem.mem (table_of (pde s.kmem.mem dir (pdx va)) + 4 * ptx va) x

  store_pde : (i : ℕ) → i < 1024 → pde after_store dir i ≡ pde s.kmem.mem dir i
  store_pde i lt =
      let d = sp.directory in
      load-store_word s.kmem.mem (table_of (pde s.kmem.mem dir (pdx va))) dir (ptx va) i x
        (table_aligned (pde s.kmem.mem dir (pdx va))) d.aligned (omega arith) lt
        (inl (λ e. d.table_ne (pdx va) (omega arith) here (sym e)))

  pub Space-store : Space end total dir (with_mem s after_store)
  Space-store = record {
    divided =
        Step-Divided end total
          (scribbles (table_of (pde s.kmem.mem dir (pdx va))) after_store
            (sp.directory.table_owned (pdx va) (omega arith) here)
            (λ a out.
              store-Apart s.kmem.mem (table_of (pde s.kmem.mem dir (pdx va))) (ptx va) x a
                (omega arith) out))
          sp.divided;
    directory = Directory-keep sp.directory store_pde (λ w h. h);
  }

  -- The entry is x for the addresses of the page of va, and no other entry changes.
  pub pte_of-store :
      (va' : ℕ)
      → x < 2 ^ 32
      → pte_of after_store dir va'
        ≡ (if pdx va' == pdx va && ptx va' == ptx va then x else pte_of s.kmem.mem dir va')
  pte_of-store va' small = elim (Bool-cases (present (pde s.kmem.mem dir (pdx va')))) [
    | inr absent ↦
        let other : (pdx va' == pdx va) ≡ false =
          ne→== (pdx va') (pdx va)
            (λ e. false_true (sym absent ∙ ap (λ i. present (pde s.kmem.mem dir i)) e ∙ here)) in
        rw (store_pde (pdx va') (omega arith), absent, other) refl
    | inl there ↦
        rw (store_pde (pdx va') (omega arith), there)
          (elim (Bool-cases (pdx va' == pdx va)) [
            | inr other ↦ rw other (
                load-store_word s.kmem.mem table (table_of (pde s.kmem.mem dir (pdx va'))) (ptx va)
                  (ptx va') x (table_aligned (pde s.kmem.mem dir (pdx va)))
                  (table_aligned (pde s.kmem.mem dir (pdx va'))) (omega arith) (omega arith)
                  (inl (λ e. ==→ne (pdx va') (pdx va) other (
                    sp.directory.apart (pdx va') (pdx va) (omega arith) (omega arith) there here
                      e))))
            | inl same ↦
                let e : pdx va' ≡ pdx va = ==→eq (pdx va') (pdx va) same in
                rw (same, ap (λ i. table_of (pde s.kmem.mem dir i)) e)
                  (elim (Bool-cases (ptx va' == ptx va)) [
                    | inl q ↦
                        rw (q, ==→eq (ptx va') (ptx va) q)
                          (load-store s.kmem.mem (table + 4 * ptx va) x small)
                    | inr q ↦ rw q (
                        load-store_word s.kmem.mem table table (ptx va) (ptx va') x
                          (table_aligned (pde s.kmem.mem dir (pdx va)))
                          (table_aligned (pde s.kmem.mem dir (pdx va))) (omega arith) (omega arith)
                          (inr (==→ne (ptx va') (ptx va) q)))
                  ])
          ])
  ]
    where
      table : ℕ
      table = table_of (pde s.kmem.mem dir (pdx va))

      false_true : false ≢ true
      false_true z = ground (arith, z)
