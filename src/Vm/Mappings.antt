-- ===== src/Vm/Mappings.antt =====
-- mappages enters a run of pages in a directory, and changes no other entry.
use cmpt.Prelude.{
  false-ne_true, ℕ, zero, suc, ◌+◌, ◌-◌, ◌*◌, ◌/◌, ◌%◌, ◌^◌, ◌<◌, ◌≤◌, ◌≡◌, refl, ◌∙◌, sym, ap,
  subst, arith, true, false, ◌&&◌, List, length, ◌==◌, ltb, leb, if◌then◌else◌, Bool-cases, inl,
  inr, ==→eq, eq→==, ne→==,
}
use Prim.Native.Nat.{bit_or}
use cmpt.Kalloc.{Kmem, load, page_size}
use cmpt.Kalloc.Chain.{has}
use cmpt.Kalloc.Owners.{System}
use cmpt.Vm.{
  pdx, ptx, pte_p, present, table_of, Walk, entry, no_table, walkpgdir, set_pte, MapEnd, mapped,
  no_page, map_from, mappages, page_round_down,
}
use cmpt.Vm.Words.{bit_or-add, bit_or_one}
use cmpt.Vm.Tables.{pde, pte_of, Space, Space-store, pte_of-store}
use cmpt.Vm.Walks.{Walks, Walked, walked, all_owned, walkpgdir-Walks}

-- The entry that mappages makes
abbrev pub entry_for : ℕ → ℕ → ℕ
entry_for pa perm = bit_or (bit_or pa perm) pte_p

-- The entry for va once n pages from a on lead to the pages from pa on
abbrev pub run_entry : ℕ → ℕ → ℕ → ℕ → (ℕ → ℕ) → ℕ → ℕ
run_entry a n pa perm old va =
    if leb a va && ltb va (a + n * page_size)
    then entry_for (pa + (va - a) / page_size * page_size) perm
    else old va

-- n pages from a on are mapped to those from pa on.
pub record Mapped (end total dir a n pa perm : ℕ) (s t : System) : Type 0 where
  pub space : Space end total dir t
  pub entries :
      (va : ℕ)
      → va < 2 ^ 32
      → pte_of t.kmem.mem dir va ≡ run_entry a n pa perm (pte_of s.kmem.mem dir) va
  pub more : (w : ℕ) → has w s.owned ≡ true → has w t.owned ≡ true

pub data Maps (end total dir a n pa perm : ℕ) (s : System) : MapEnd → Type 0 where
  all_mapped :
      {k : Kmem} (owned : List ℕ)
      → Mapped end total dir a n pa perm s (record { kmem = k; owned = owned })
      → Maps end total dir a n pa perm s (mapped k)
  out_of_pages :
      {k : Kmem} (m : ℕ) (owned : List ℕ)
      → m < n
      → Mapped end total dir a m pa perm s (record { kmem = k; owned = owned })
      → length owned ≡ total
      → Maps end total dir a n pa perm s (no_page k)

-- What one call needs: pages of the address space, and flags below them
pub record Fits (a n pa perm : ℕ) : Type 0 where
  pub aligned : a % page_size ≡ 0
  pub pa_aligned : pa % page_size ≡ 0
  pub inside : a + n * page_size ≤ 2 ^ 32
  pub pa_inside : pa + n * page_size ≤ 2 ^ 32
  pub flags : perm < page_size

entry_value :
    (pa perm : ℕ)
    → pa % page_size ≡ 0
    → perm < page_size
    → entry_for pa perm ≡ pa + perm + (1 - (pa + perm) % 2)
entry_value pa perm al lt =
    ap (λ y. bit_or y pte_p) (bit_or-add 12 pa perm (omega arith)) ∙ bit_or_one (pa + perm)

same_page :
    (a va : ℕ)
    → a % page_size ≡ 0
    → a < 2 ^ 32
    → va < 2 ^ 32
    → (pdx va == pdx a && ptx va == ptx a) ≡ (leb a va && ltb va (a + 1 * page_size))
same_page a va al la lv = elim (Bool-cases (leb a va && ltb va (a + 1 * page_size))) [
  | inl e ↦
      let lo : a ≤ va = ground (arith, e) in
      let hi : va < a + page_size = ground (arith, e) in
      rw (e, eq→== (pdx va) (pdx a) (omega arith), eq→== (ptx va) (ptx a) (omega arith)) refl
  | inr e ↦ rw e (elim (Bool-cases (pdx va == pdx a)) [
    | inr p ↦ rw p refl
    | inl p ↦ elim (Bool-cases (ptx va == ptx a)) [
      | inr q ↦ rw (p, q) refl
      | inl q ↦
          let x = ==→eq (pdx va) (pdx a) p in
          let y = ==→eq (ptx va) (ptx a) q in
          let lo : a ≤ va = omega arith in
          let hi : va < a + 1 * page_size = omega arith in
          absurd (false-ne_true (sym e ∙ ground (arith, lo, hi)))
    ]
  ])
]

-- One page, and n further ones
run_entry-cons :
    (a n pa perm : ℕ) (old : ℕ → ℕ) (va : ℕ)
    → run_entry (a + page_size) n (pa + page_size) perm (run_entry a 1 pa perm old) va
      ≡ run_entry a (suc n) pa perm old va
run_entry-cons a n pa perm old va = elim (Bool-cases (leb (a + page_size) va)) [
  | inl e ↦
      let ge : a + page_size ≤ va = ground (arith, e) in
      let i : (leb a va && ltb va (a + 1 * page_size)) ≡ false = ground (arith, ge) in
      let j : (leb (a + page_size) va && ltb va (a + page_size + n * page_size))
          ≡ (leb a va && ltb va (a + suc n * page_size)) =
        ground (arith, ge) in
      let q : pa + page_size + (va - (a + page_size)) / page_size * page_size
          ≡ pa + (va - a) / page_size * page_size =
        omega arith in
      rw (j, i, q) refl
  | inr e ↦
      let lt : va < a + page_size = ground (arith, e) in
      let i : (leb (a + page_size) va && ltb va (a + page_size + n * page_size)) ≡ false =
        ground (arith, lt) in
      let j : (leb a va && ltb va (a + 1 * page_size))
          ≡ (leb a va && ltb va (a + suc n * page_size)) =
        ground (arith, lt) in
      rw (i, j) refl
]

module _ {end total dir a pa perm : ℕ} {s t : System} where
  -- The first page of a run, entered where walkpgdir found its place
  first_page :
      {pte : ℕ}
      → Fits a 1 pa perm
      → Walked end total dir a s pte t
      → Mapped end total dir a 1 pa perm s
          (record t { kmem = set_pte pte (entry_for pa perm) t.kmem })
  first_page {pte} f w =
      subst
        (λ p.
          Mapped end total dir a 1 pa perm s
            (record t { kmem = set_pte p (entry_for pa perm) t.kmem }))
        (sym w.at)
        (record {
          space = Space-store w.space a (entry_for pa perm) w.here;
          entries = λ va lv.
              pte_of-store w.space a (entry_for pa perm) w.here va (
                omega (
                  arith,
                  entry_value pa perm f.pa_aligned f.flags,
                  f.pa_aligned,
                  f.pa_inside,
                  f.flags,
                ))
              ∙ ap (λ b. if b then entry_for pa perm else pte_of t.kmem.mem dir va)
                  (same_page a va f.aligned (omega (arith, f.inside)) lv)
              ∙ elim (Bool-cases (leb a va && ltb va (a + 1 * page_size))) [
                | inl e ↦
                    let hi : va < a + page_size = ground (arith, e) in
                    let q : pa ≡ pa + (va - a) / page_size * page_size = omega arith in
                    rw e (ap (λ y. entry_for y perm) q)
                | inr e ↦ rw e (w.same va)
              ];
          more = w.more;
        })

-- The entry that map_from looks at is the one for a.
found_entry :
    {end total dir a pte : ℕ} {s t : System}
    → Walked end total dir a s pte t
    → load t.kmem.mem pte ≡ pte_of s.kmem.mem dir a
found_entry {dir = dir} {a} {s = s} {t} w =
    ap (load t.kmem.mem) w.at
    ∙ sym (
        ap
          (λ b.
            if b then load t.kmem.mem (table_of (pde t.kmem.mem dir (pdx a)) + 4 * ptx a) else 0)
          w.here)
    ∙ w.same a

Mapped-cons :
    {end total dir a n pa perm : ℕ} {s t u : System}
    → Mapped end total dir a 1 pa perm s t
    → Mapped end total dir (a + page_size) n (pa + page_size) perm t u
    → Mapped end total dir a (suc n) pa perm s u
Mapped-cons {dir = dir} {a} {n} {pa} {perm} {s} {t} {u} m m' = record {
  space = m'.space;
  entries = λ va lv.
      m'.entries va lv
      ∙ ap
          (λ x.
            if leb (a + page_size) va && ltb va (a + page_size + n * page_size)
            then entry_for (pa + page_size + (va - (a + page_size)) / page_size * page_size) perm
            else x)
          (m.entries va lv)
      ∙ run_entry-cons a n pa perm (pte_of s.kmem.mem dir) va;
  more = λ w h. m'.more w (m.more w h);
}

Mapped-none :
    {end total dir a pa perm : ℕ} {s : System}
    → Space end total dir s
    → Mapped end total dir a 0 pa perm s s
Mapped-none {dir = dir} {a} {s = s} sp = record {
  space = sp;
  entries =
      λ va lv. let e : (leb a va && ltb va (a + 0 * page_size)) ≡ false = ground arith in rw e refl;
  more = λ w h. h;
}

module _ (end total dir perm : ℕ) where
  abbrev Unmapped : ℕ → ℕ → System → Type 0
  Unmapped a n s =
      (va : ℕ) → a ≤ va → va < a + n * page_size → present (pte_of s.kmem.mem dir va) ≡ false

  -- The pages behind the first are as they were.
  Unmapped-next :
      (a n pa : ℕ) (s t : System)
      → Fits a (suc n) pa perm
      → Mapped end total dir a 1 pa perm s t
      → Unmapped a (suc n) s
      → Unmapped (a + page_size) n t
  Unmapped-next a n pa s t f m free va ge lt =
      let e : (leb a va && ltb va (a + 1 * page_size)) ≡ false = ground (arith, ge) in
      ap present (m.entries va (omega (arith, f.inside)) ∙ rw e refl)
      ∙ free va (omega arith) (omega arith)

  abbrev Rest : ℕ → ℕ → ℕ → System → ℕ → Type 0
  Rest n a pa s last =
      (t : System)
      → Mapped end total dir a 1 pa perm s t
      → Maps end total dir a (suc n) pa perm s (elim (a == last) [
        | true ↦ mapped t.kmem
        | false ↦
            map_from n dir ((a + page_size) % 2 ^ 32) last ((pa + page_size) % 2 ^ 32) perm t.kmem
      ])

  -- The runs that are left, in front of which the first page stands
  Maps-cons :
      {n a pa : ℕ} {s : System} (t : System) {r : MapEnd}
      → Mapped end total dir a 1 pa perm s t
      → Maps end total dir (a + page_size) n (pa + page_size) perm t r
      → Maps end total dir a (suc n) pa perm s r
  Maps-cons t m (all_mapped owned m') = all_mapped owned (Mapped-cons m m')
  Maps-cons t m (out_of_pages k owned lt m' all) =
      out_of_pages (suc k) owned (omega arith) (Mapped-cons m m') all

  -- A round, with what follows its page
  round :
      (n a pa last : ℕ) (s : System)
      → Fits a (suc n) pa perm
      → Unmapped a (suc n) s
      → Space end total dir s
      → Rest n a pa s last
      → Maps end total dir a (suc n) pa perm s (map_from (suc n) dir a last pa perm s.kmem)
  unfolding map_from
  round n a pa last s f free sp rest = of (walkpgdir dir a true s.kmem) refl (walkpgdir-Walks a sp)
    where
      one : Fits a 1 pa perm
      one = record {
        aligned = f.aligned;
        pa_aligned = f.pa_aligned;
        inside = omega (arith, f.inside);
        pa_inside = omega (arith, f.pa_inside);
        flags = f.flags;
      }

      of :
          (w : Walk)
          → walkpgdir dir a true s.kmem ≡ w
          → Walks end total dir a s w
          → Maps end total dir a (suc n) pa perm s (map_from (suc n) dir a last pa perm s.kmem)
      of (no_table _) e (all_owned all) =
          rw (map_from, e) (out_of_pages 0 s.owned (omega arith) (Mapped-none sp) all)
      of (entry pte k) e (walked owned w) =
          let absent : present (load k.mem pte) ≡ false =
            ap present (found_entry w) ∙ free a (omega arith) (omega arith) in
          rw (map_from, e, absent)
            (rest (record { kmem = set_pte pte (entry_for pa perm) k; owned = owned })
              (first_page one w))

  map_from-Maps :
      (n a pa last : ℕ) (s : System)
      → Fits a (suc n) pa perm
      → Unmapped a (suc n) s
      → Space end total dir s
      → last ≡ a + n * page_size
      → Maps end total dir a (suc n) pa perm s (map_from (suc n) dir a last pa perm s.kmem)
  map_from-Maps zero a pa last s f free sp e =
      round zero a pa last s f free sp
        (λ t m. rw (eq→== a last (omega (arith, e))) (all_mapped t.owned m))
  map_from-Maps (suc n) a pa last s f free sp e = round (suc n) a pa last s f free sp (λ t m.
      let q : (a + page_size) % 2 ^ 32 ≡ a + page_size = omega (arith, f.inside) in
      let r : (pa + page_size) % 2 ^ 32 ≡ pa + page_size = omega (arith, f.pa_inside) in
      rw (ne→== a last (omega (arith, e)), q, r)
        (Maps-cons t m (
          map_from-Maps n (a + page_size) (pa + page_size) last t
            (record {
              aligned = omega (arith, f.aligned);
              pa_aligned = omega (arith, f.pa_aligned);
              inside = omega (arith, f.inside);
              pa_inside = omega (arith, f.pa_inside);
              flags = f.flags;
            })
            (Unmapped-next a (suc n) pa s t f m free) m.space (omega (arith, e)))))

-- mappages of n pages that are not mapped, at least one: it returns 0 with exactly these pages
-- mapped, one after the other and with the flags given, and every other entry as before; or it
-- returns -1, having mapped only some of the first of them, and then every page of memory is owned.
-- It does not panic, the directory keeps tables of its own, and what others own they keep.
pub mappages-Maps :
    (end total dir a n pa perm : ℕ) (s : System)
    → Space end total dir s
    → Fits a (suc n) pa perm
    → ((va : ℕ) → a ≤ va → va < a + suc n * page_size → present (pte_of s.kmem.mem dir va) ≡ false)
    → Maps end total dir a (suc n) pa perm s (mappages dir a (suc n * page_size) pa perm s.kmem)
unfolding mappages
mappages-Maps end total dir a n pa perm s sp f free =
    let first : page_round_down a ≡ a = omega (arith, f.aligned) in
    let last : page_round_down ((a + suc n * page_size + (2 ^ 32 - 1)) % 2 ^ 32)
        ≡ a + n * page_size =
      omega (arith, f.aligned, f.inside) in
    let fuel : (a + n * page_size + 2 ^ 32 - a) % 2 ^ 32 / page_size ≡ n =
      omega (arith, f.inside) in
    rw (first, last, fuel)
      (map_from-Maps end total dir perm n a pa (a + n * page_size) s f free sp refl)
