-- ===== src/Vm/Walks.antt =====
-- walkpgdir finds the place of an entry, and makes a table for it where there is none.
use cmpt.Prelude.{
  false-ne_true, ℕ, ◌+◌, ◌*◌, ◌%◌, ◌^◌, ◌<◌, ◌≡◌, ◌≢◌, inl, inr, refl, ◌∙◌, sym, ap, subst, arith,
  true, false, List, ◌∷◌, length, ◌==◌, if◌then◌else◌, Bool-cases, ==→eq, ==→ne, eq→==, ne→==,
}
use Prim.Native.Nat.{bit_or}
use cmpt.Kalloc.{Memory, Kmem, load, store, fill, kalloc, page_size, v2p}
use cmpt.Kalloc.Chain.{has, IsPage, Apart, load-store}
use cmpt.Kalloc.Owners.{System, scribbles, Divided, Step-Divided, kalloc-Divided, kalloc_mem}
use cmpt.Vm.{
  pdx, ptx, pte_p, pte_w, pte_u, present, table_of, Walk, entry, no_table, enter_table, walkpgdir,
}
use cmpt.Vm.Words.{bit_or-add, load-fill_in}
use cmpt.Vm.Tables.{pde, pte_of, Directory, Space, load-store_word, load-page, store-Apart}

-- The table is there now, and no entry has changed.
pub record Walked (end total dir va : ℕ) (s : System) (pte : ℕ) (t : System) : Type 0 where
  pub space : Space end total dir t
  pub here : present (pde t.kmem.mem dir (pdx va)) ≡ true
  pub at : pte ≡ table_of (pde t.kmem.mem dir (pdx va)) + 4 * ptx va
  pub same : (va' : ℕ) → pte_of t.kmem.mem dir va' ≡ pte_of s.kmem.mem dir va'
  pub more : (w : ℕ) → has w s.owned ≡ true → has w t.owned ≡ true

pub data Walks (end total dir va : ℕ) (s : System) : Walk → Type 0 where
  walked :
      {pte : ℕ} {k : Kmem} (owned : List ℕ)
      → Walked end total dir va s pte (record { kmem = k; owned = owned })
      → Walks end total dir va s (entry pte k)
  all_owned : length s.owned ≡ total → Walks end total dir va s (no_table s.kmem)

-- A new table t, zeroed and entered in the directory
module _ {end total dir : ℕ} {s : System} (sp : Space end total dir s) (va t : ℕ) (k : Kmem)
    (page : IsPage end t) (new : has t s.owned ≡ false) (kept : k.mem ≡ s.kmem.mem)
    (div : Divided end total (record { kmem = k; owned = t ∷ s.owned })) where
  abbrev x : ℕ
  x = bit_or (bit_or (bit_or (v2p t) pte_p) pte_w) pte_u

  abbrev zeroed : Memory
  zeroed = fill k.mem t 0 page_size

  abbrev entered : Memory
  entered = store zeroed (dir + 4 * pdx va) x

  x_value : x ≡ v2p t + 7
  x_value =
      let a : v2p t % page_size ≡ 0 = omega (arith, page.aligned, page.mapped) in
      ap (λ y. bit_or (bit_or y pte_w) pte_u) (bit_or-add 3 (v2p t) pte_p (omega arith))
      ∙ ap (λ y. bit_or y pte_u) (bit_or-add 3 (v2p t + 1) pte_w (omega arith))
      ∙ bit_or-add 3 (v2p t + 1 + 2) pte_u (omega arith)
      ∙ omega arith

  x_table : table_of x ≡ t
  x_table = ap table_of x_value ∙ omega (arith, page.aligned, page.mapped)

  x-present : present x ≡ true
  x-present = eq→== (x % 2) 1 (omega (arith, x_value, page.aligned, page.mapped))

  x_small : x < 2 ^ 32
  x_small = omega (arith, x_value, page.aligned, page.mapped)

  dir_ne : dir ≢ t
  dir_ne e = false-ne_true (sym new ∙ ap (λ w. has w s.owned) (sym e) ∙ sp.directory.dir_owned)

  fill_out : (a : ℕ) → Apart t a → zeroed a ≡ k.mem a
  unfolding fill
  fill_out a out = ground (arith, out)

  -- A word of another owned page is as it was, but for the new entry.
  word_kept :
      (w i : ℕ)
      → has w s.owned ≡ true
      → w % page_size ≡ 0
      → i < 1024
      → load zeroed (w + 4 * i) ≡ load s.kmem.mem (w + 4 * i)
  word_kept w i h wa lt =
      load-page k.mem zeroed t w i fill_out page.aligned wa
        (λ e. false-ne_true (sym new ∙ ap (λ y. has y s.owned) (sym e) ∙ h)) lt
      ∙ ap (λ m. load m (w + 4 * i)) kept

  new_pde :
      (i : ℕ) → i < 1024 → pde entered dir i ≡ (if i == pdx va then x else pde s.kmem.mem dir i)
  new_pde i lt = elim (Bool-cases (i == pdx va)) [
    | inl e ↦ rw (e, ==→eq i (pdx va) e) (load-store zeroed (dir + 4 * pdx va) x x_small)
    | inr e ↦ rw e (
        load-store_word zeroed dir dir (pdx va) i x sp.directory.aligned sp.directory.aligned
          (omega arith) lt (inr (==→ne i (pdx va) e))
        ∙ word_kept dir i sp.directory.dir_owned sp.directory.aligned lt)
  ]

  -- An entry other than the new one
  old_pde : (i : ℕ) → i < 1024 → i ≢ pdx va → pde entered dir i ≡ pde s.kmem.mem dir i
  old_pde i lt ne = new_pde i lt ∙ rw (ne→== i (pdx va) ne) refl

  own_pde : (i : ℕ) → i ≡ pdx va → pde entered dir i ≡ x
  own_pde i e = new_pde i (omega arith) ∙ rw (eq→== i (pdx va) e) refl

  old_owned : (w : ℕ) → has w s.owned ≡ true → has w (t ∷ s.owned) ≡ true
  old_owned w h = ground (arith, h)

  -- The new table is none of the others.
  table_new :
      (i : ℕ)
      → i < 1024
      → present (pde s.kmem.mem dir i) ≡ true
      → t ≢ table_of (pde s.kmem.mem dir i)
  table_new i lt p e =
      false-ne_true (sym new ∙ ap (λ w. has w s.owned) e ∙ sp.directory.table_owned i lt p)

  entered-Directory : Directory entered (t ∷ s.owned) dir
  entered-Directory = record {
    aligned = sp.directory.aligned;
    dir_owned = old_owned dir sp.directory.dir_owned;
    table_owned = λ i lt p. elim (Bool-cases (i == pdx va)) [
      | inl e ↦
          subst (λ w. has (table_of w) (t ∷ s.owned) ≡ true) (sym (own_pde i (==→eq i (pdx va) e)))
            (ap (λ w. has w (t ∷ s.owned)) x_table ∙ ground arith)
      | inr e ↦
          let q = old_pde i lt (==→ne i (pdx va) e) in
          ap (λ w. has (table_of w) (t ∷ s.owned)) q
          ∙ old_owned (table_of (pde s.kmem.mem dir i))
              (sp.directory.table_owned i lt (ap present (sym q) ∙ p))
    ];
    table_ne = λ i lt p. elim (Bool-cases (i == pdx va)) [
      | inl e ↦ λ z. dir_ne (sym z ∙ ap table_of (own_pde i (==→eq i (pdx va) e)) ∙ x_table)
      | inr e ↦
          let q = old_pde i lt (==→ne i (pdx va) e) in
          λ z. sp.directory.table_ne i lt (ap present (sym q) ∙ p) (ap table_of (sym q) ∙ z)
    ];
    apart = λ i j li lj p p' z. elim (Bool-cases (i == pdx va)) [
      | inl e ↦ elim (Bool-cases (j == pdx va)) [
        | inl e' ↦ ==→eq i (pdx va) e ∙ sym (==→eq j (pdx va) e')
        | inr e' ↦
            let q = old_pde j lj (==→ne j (pdx va) e') in
            absurd (
              table_new j lj (ap present (sym q) ∙ p') (
                sym x_table
                ∙ ap table_of (sym (own_pde i (==→eq i (pdx va) e)))
                ∙ z
                ∙ ap table_of q))
      ]
      | inr e ↦
          let q = old_pde i li (==→ne i (pdx va) e) in
          elim (Bool-cases (j == pdx va)) [
            | inl e' ↦ absurd (
                table_new i li (ap present (sym q) ∙ p) (
                  sym x_table
                  ∙ ap table_of (sym (own_pde j (==→eq j (pdx va) e')))
                  ∙ sym z
                  ∙ ap table_of q))
            | inr e' ↦
                let q' = old_pde j lj (==→ne j (pdx va) e') in
                sp.directory.apart i j li lj (ap present (sym q) ∙ p) (ap present (sym q') ∙ p')
                  (ap table_of (sym q) ∙ z ∙ ap table_of q')
          ]
    ];
  }

  entered-Divided :
      Divided end total (record { kmem = record k { mem = entered }; owned = t ∷ s.owned })
  entered-Divided =
      Step-Divided end total
        (scribbles dir entered (old_owned dir sp.directory.dir_owned)
          (λ a out. store-Apart zeroed dir (pdx va) x a (omega arith) out))
        (Step-Divided end total (scribbles t zeroed (ground arith) fill_out) div)

  pte_of-entered :
      present (pde s.kmem.mem dir (pdx va)) ≡ false
      → (va' : ℕ) → pte_of entered dir va' ≡ pte_of s.kmem.mem dir va'
  pte_of-entered absent va' = elim (Bool-cases (pdx va' == pdx va)) [
    | inl e ↦
        let q : pdx va' ≡ pdx va = ==→eq (pdx va') (pdx va) e in
        let was : present (pde s.kmem.mem dir (pdx va')) ≡ false =
          ap (λ i. present (pde s.kmem.mem dir i)) q ∙ absent in
        ap (λ w. if present w then load entered (table_of w + 4 * ptx va') else 0)
          (own_pde (pdx va') q)
        ∙ ap (λ b. if b then load entered (table_of x + 4 * ptx va') else 0) x-present
        ∙ ap (λ w. load entered (w + 4 * ptx va')) x_table
        ∙ load-store_word zeroed dir t (pdx va) (ptx va') x sp.directory.aligned page.aligned
            (omega arith) (omega arith) (inl (λ z. dir_ne (sym z)))
        ∙ load-fill_in k.mem t (ptx va') (omega arith)
        ∙ sym (rw was refl)
    | inr e ↦
        let q = old_pde (pdx va') (omega arith) (==→ne (pdx va') (pdx va) e) in
        ap (λ w. if present w then load entered (table_of w + 4 * ptx va') else 0) q
        ∙ elim (Bool-cases (present (pde s.kmem.mem dir (pdx va')))) [
          | inr a ↦ rw a refl
          | inl a ↦
              let w = table_of (pde s.kmem.mem dir (pdx va')) in
              rw a (
                load-store_word zeroed dir w (pdx va) (ptx va') x sp.directory.aligned (omega arith)
                  (omega arith) (omega arith)
                  (inl (sp.directory.table_ne (pdx va') (omega arith) a))
                ∙ word_kept w (ptx va') (sp.directory.table_owned (pdx va') (omega arith) a)
                    (omega arith) (omega arith))
        ]
  ]

  enter-Walks :
      present (pde s.kmem.mem dir (pdx va)) ≡ false
      → Walks end total dir va s (enter_table dir va (t, k))
  unfolding enter_table
  enter-Walks absent = rw (ne→== t 0 (omega (arith, page.mapped))) (
      walked (t ∷ s.owned) (record {
        space = record { divided = entered-Divided; directory = entered-Directory };
        here = ap present (own_pde (pdx va) refl) ∙ x-present;
        at = ap (λ w. w + 4 * ptx va) (sym x_table ∙ ap table_of (sym (own_pde (pdx va) refl)));
        same = pte_of-entered absent;
        more = old_owned;
      }))

-- walkpgdir with alloc returns the place of the entry for va in a table that is there; it may make
-- the table, and changes no entry. It returns 0, without a change, only if all pages are owned.
pub walkpgdir-Walks :
    {end total dir : ℕ} {s : System} (va : ℕ)
    → Space end total dir s
    → Walks end total dir va s (walkpgdir dir va true s.kmem)
unfolding walkpgdir enter_table
walkpgdir-Walks {end} {total} {dir} {s} va sp =
    elim (Bool-cases (present (pde s.kmem.mem dir (pdx va)))) [
      | inl there ↦
          rw (walkpgdir, there)
            (walked s.owned
              (record { space = sp; here = there; at = refl; same = λ va'. refl; more = λ w h. h }))
      | inr absent ↦
          rw (walkpgdir, absent)
            (elim (kalloc-Divided end total s sp.divided) [
              | inl (none_left, all) ↦
                  subst (λ o. Walks end total dir va s (enter_table dir va o)) (sym none_left)
                    (all_owned all)
              | inr a ↦
                  enter-Walks sp va (kalloc s.kmem).0 (kalloc s.kmem).1 a.page a.fresh
                    (kalloc_mem s.kmem) a.after absent
            ])
    ]
