-- ===== src/Vm/Spaces.antt =====
-- xv6-public/vm.c: the address spaces of the kernel and of processes, from setupkvm to copyout.
use Prim.Native.Nat.{bit_and, bit_or}
use cmpt.Prelude.{
  ℕ, zero, suc, ◌+◌, ◌-◌, ◌*◌, ◌/◌, ◌%◌, ◌^◌, Bool, true, false, ◌&&◌, Option, none, some, List, [],
  ◌∷◌, ◌==◌, ltb, leb, if◌then◌else◌,
}
use cmpt.Kalloc.{
  Kmem, load, fill, page_size, kern_base, phys_stop, v2p, page_round_up, kfree, kalloc,
}
use cmpt.Strings.{memmove}
use cmpt.Vm.{
  page_round_down, npdentries, nptentries, pte_w, pte_u, present, is_user, pte_addr, pte_flags, p2v,
  table_of, walkpgdir, set_pte, MapEnd, mappages, entry, no_table, mapped, no_page, remap,
  unfinished,
}

-- struct kmap
pub record Kmap : Type 0 where
  pub virt : ℕ
  pub phys_start : ℕ
  pub phys_end : ℕ
  pub perm : ℕ

-- EXTMEM, DEVSPACE and KERNLINK
abbrev pub extmem : ℕ
extmem = 0x100000

abbrev pub devspace : ℕ
devspace = 0xFE000000

abbrev pub kernlink : ℕ
kernlink = kern_base + extmem

-- The array kmap; `data_start` is the linker's symbol data.
pub kmap : ℕ → List Kmap
kmap data_start =
    record { virt = kern_base; phys_start = 0; phys_end = extmem; perm = pte_w }
    ∷ record { virt = kernlink; phys_start = v2p kernlink; phys_end = v2p data_start; perm = 0 }
    ∷ record { virt = data_start; phys_start = v2p data_start; phys_end = phys_stop; perm = pte_w }
    ∷ record { virt = devspace; phys_start = devspace; phys_end = 0; perm = pte_w }
    ∷ []

-- `none` is a panic of mappages; a result 0 is `no_page`.
pub map_all : ℕ → List Kmap → Kmem → MapEnd
unfolding mappages
map_all dir [] k = mapped k
map_all dir (e ∷ es) k =
    elim (mappages dir e.virt ((e.phys_end + 2 ^ 32 - e.phys_start) % 2 ^ 32) e.phys_start e.perm
      k) [
        | mapped k' ↦ map_all dir es k'
        | no_page k' ↦ no_page k'
        | remap ↦ remap
        | unfinished ↦ unfinished
      ]

module _ (end data_start : ℕ) where
  -- setupkvm: the directory, or 0
  pub setupkvm : Kmem → Option (ℕ × Kmem)
  unfolding map_all kmap
  setupkvm k =
      let (dir, k1) = kalloc k in
      if dir == 0
      then some (0, k1)
      else if ltb devspace (p2v phys_stop)
      then none
      else elim (map_all dir (kmap data_start) (record k1 { mem = fill k1.mem dir 0 page_size })) [
        | mapped k2 ↦ some (dir, k2)
        | no_page k2 ↦ some (0, k2)
        | remap ↦ none
        | unfinished ↦ none
      ]

  -- inituvm: the result of mappages is not looked at, nor is that of kalloc.
  pub inituvm : ℕ → ℕ → ℕ → Kmem → Option Kmem
  unfolding mappages
  inituvm dir init sz k =
      if leb page_size sz
      then none
      else (let (m, k1) = kalloc k in
          elim (mappages dir 0 page_size (v2p m) (bit_or pte_w pte_u)
            (record k1 { mem = fill k1.mem m 0 page_size })) [
              | mapped k2 ↦ some (record k2 { mem = memmove m init sz k2.mem })
              | no_page k2 ↦ some (record k2 { mem = memmove m init sz k2.mem })
              | remap ↦ none
              | unfinished ↦ none
            ])

  -- deallocuvm's loop, with at most n rounds from a on
  dealloc_from : ℕ → ℕ → ℕ → ℕ → Kmem → Option Kmem
  unfolding walkpgdir
  dealloc_from zero dir a oldsz k = if ltb a oldsz then none else some k
  dealloc_from (suc n) dir a oldsz k = elim (ltb a oldsz) [
    | false ↦ some k
    | true ↦ elim (walkpgdir dir a false k) [
      | no_table k' ↦ dealloc_from n dir (a + (nptentries - 1) * page_size + page_size) oldsz k'
      | entry pte k' ↦ elim (present (load k'.mem pte)) [
        | false ↦ dealloc_from n dir (a + page_size) oldsz k'
        | true ↦ elim (pte_addr (load k'.mem pte) == 0) [
          | true ↦ none
          | false ↦ elim (kfree end (table_of (load k'.mem pte)) k') [
            | none ↦ none
            | some k'' ↦ dealloc_from n dir (a + page_size) oldsz (set_pte pte 0 k'')
          ]
        ]
      ]
    ]
  ]

  pub deallocuvm : ℕ → ℕ → ℕ → Kmem → Option (ℕ × Kmem)
  unfolding dealloc_from
  deallocuvm dir oldsz newsz k =
      if leb oldsz newsz
      then some (oldsz, k)
      else (elim (dealloc_from (oldsz / page_size + 1) dir (page_round_up newsz) oldsz k) [
        | none ↦ none
        | some k' ↦ some (newsz, k')
      ])

  -- allocuvm's loop, with at most n rounds from a on
  alloc_from : ℕ → ℕ → ℕ → ℕ → ℕ → Kmem → Option (ℕ × Kmem)
  unfolding deallocuvm mappages
  alloc_from zero dir a oldsz newsz k = if ltb a newsz then none else some (newsz, k)
  alloc_from (suc n) dir a oldsz newsz k = elim (ltb a newsz) [
    | false ↦ some (newsz, k)
    | true ↦
        (let (m, k1) = kalloc k in
          elim (m == 0) [
            | true ↦ elim (deallocuvm dir newsz oldsz k1) [
              | none ↦ none
              | some (_, k2) ↦ some (0, k2)
            ]
            | false ↦
                elim (mappages dir a page_size (v2p m) (bit_or pte_w pte_u)
                  (record k1 { mem = fill k1.mem m 0 page_size })) [
                    | mapped k2 ↦ alloc_from n dir (a + page_size) oldsz newsz k2
                    | no_page k2 ↦ alloc_from n dir (a + page_size) oldsz newsz k2
                    | remap ↦ none
                    | unfinished ↦ none
                  ]
          ])
  ]

  -- allocuvm: the new size, or 0
  pub allocuvm : ℕ → ℕ → ℕ → Kmem → Option (ℕ × Kmem)
  unfolding alloc_from
  allocuvm dir oldsz newsz k =
      if leb kern_base newsz
      then some (0, k)
      else if ltb newsz oldsz
      then some (oldsz, k)
      else alloc_from (newsz / page_size + 1) dir (page_round_up oldsz) oldsz newsz k

  -- freevm's loop over the directory, n entries from i on
  free_tables : ℕ → ℕ → ℕ → Kmem → Option Kmem
  free_tables zero i dir k = some k
  free_tables (suc n) i dir k = elim (present (load k.mem (dir + 4 * i))) [
    | false ↦ free_tables n (i + 1) dir k
    | true ↦ elim (kfree end (table_of (load k.mem (dir + 4 * i))) k) [
      | none ↦ none
      | some k' ↦ free_tables n (i + 1) dir k'
    ]
  ]

  pub freevm : ℕ → Kmem → Option Kmem
  unfolding deallocuvm free_tables
  freevm dir k = if dir == 0 then none else (elim (deallocuvm dir kern_base 0 k) [
    | none ↦ none
    | some (_, k1) ↦ elim (free_tables npdentries 0 dir k1) [
      | none ↦ none
      | some k2 ↦ kfree end dir k2
    ]
  ])

  -- clearpteu
  pub clearpteu : ℕ → ℕ → Kmem → Option Kmem
  unfolding walkpgdir
  clearpteu dir uva k = elim (walkpgdir dir uva false k) [
    | no_table k' ↦ none
    | entry pte k' ↦ some (set_pte pte (bit_and (load k'.mem pte) (2 ^ 32 - 1 - pte_u)) k')
  ]

  -- The label `bad` of copyuvm
  copy_failed : ℕ → Kmem → Option (ℕ × Kmem)
  unfolding freevm
  copy_failed d k = elim (freevm d k) [ none ↦ none | some k' ↦ some (0, k') ]

  -- copyuvm's loop, with at most n rounds from i on
  copy_from : ℕ → ℕ → ℕ → ℕ → ℕ → Kmem → Option (ℕ × Kmem)
  unfolding walkpgdir mappages copy_failed
  copy_from zero dir d i sz k = if ltb i sz then none else some (d, k)
  copy_from (suc n) dir d i sz k = elim (ltb i sz) [
    | false ↦ some (d, k)
    | true ↦ elim (walkpgdir dir i false k) [
      | no_table k1 ↦ none
      | entry pte k1 ↦ elim (present (load k1.mem pte)) [
        | false ↦ none
        | true ↦
            (let x = load k1.mem pte in
              let (m, k2) = kalloc k1 in
              elim (m == 0) [
                | true ↦ copy_failed d k2
                | false ↦
                    elim (mappages d i page_size (v2p m) (pte_flags x)
                      (record k2 { mem = memmove m (table_of x) page_size k2.mem })) [
                        | mapped k3 ↦ copy_from n dir d (i + page_size) sz k3
                        | no_page k3 ↦ copy_failed d k3
                        | remap ↦ none
                        | unfinished ↦ none
                      ]
              ])
      ]
    ]
  ]

  -- copyuvm: the new directory, or 0
  pub copyuvm : ℕ → ℕ → Kmem → Option (ℕ × Kmem)
  unfolding setupkvm copy_from
  copyuvm dir sz k = elim (setupkvm k) [
    | none ↦ none
    | some (d, k1) ↦ if d == 0 then some (0, k1) else copy_from (sz / page_size + 1) dir d 0 sz k1
  ]

-- uva2ka, where walkpgdir finds a PTE: the kernel's address of the page, or 0. Without one the
-- code reads through a null pointer, which is `none`.
pub uva2ka : ℕ → ℕ → Kmem → Option ℕ
unfolding walkpgdir
uva2ka dir uva k = elim (walkpgdir dir uva false k) [
  | no_table _ ↦ none
  | entry pte k' ↦ some (
      if present (load k'.mem pte) && is_user (load k'.mem pte)
      then table_of (load k'.mem pte)
      else 0)
]

-- copyout's loop, with at most n rounds; `true` for 0, `false` for -1
copy_pages : ℕ → ℕ → ℕ → ℕ → ℕ → Kmem → Option (Bool × Kmem)
unfolding uva2ka
copy_pages zero dir va p len k = if len == 0 then some (true, k) else none
copy_pages (suc n) dir va p len k = elim (len == 0) [
  | true ↦ some (true, k)
  | false ↦
      (let va0 = page_round_down va in
        elim (uva2ka dir va0 k) [
          | none ↦ none
          | some pa0 ↦ elim (pa0 == 0) [
            | true ↦ some (false, k)
            | false ↦
                (let m = if ltb len (page_size - (va - va0)) then len else page_size - (va - va0) in
                  copy_pages n dir (va0 + page_size) (p + m) (len - m)
                    (record k { mem = memmove (pa0 + (va - va0)) p m k.mem }))
          ]
        ])
]

pub copyout : ℕ → ℕ → ℕ → ℕ → Kmem → Option (Bool × Kmem)
unfolding copy_pages
copyout dir va p len k = copy_pages len dir va p len k
