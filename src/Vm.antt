-- ===== src/Vm.antt =====
-- xv6-public/vm.c, mmu.h: page directories and page tables, read and written word by word in the
-- memory of the page allocator. A pointer is its address, and `none` is a panic. The
-- loading of the hardware's registers has no state here. In the loops over user addresses `a`
-- stays below KERNBASE and four megabytes, so it does not wrap.

pub mod Words
pub mod Tables
pub mod Walks
pub mod Mappings
pub mod Spaces
mod Examples
use Prim.Native.Nat.{bit_and, bit_or}
use cmpt.Prelude.{
  ℕ, zero, suc, ◌+◌, ◌-◌, ◌*◌, ◌/◌, ◌%◌, ◌^◌, Bool, true, false, not, ◌&&◌, ◌||◌, Option, none,
  some, List, [], ◌∷◌, ◌==◌, ltb, leb, if◌then◌else◌,
}
use cmpt.Kalloc.{
  Memory, Kmem, load, store, fill, page_size, kern_base, phys_stop, v2p, page_round_up, kfree,
  kalloc,
}
use cmpt.Strings.{memmove}

-- PDX and PTX
abbrev pub pdx : ℕ → ℕ
pdx va = va / 2 ^ 22 % 1024

abbrev pub ptx : ℕ → ℕ
ptx va = va / 2 ^ 12 % 1024

-- PGROUNDDOWN
abbrev pub page_round_down : ℕ → ℕ
page_round_down a = a / page_size * page_size

-- NPDENTRIES and NPTENTRIES
abbrev pub npdentries : ℕ
npdentries = 1024

abbrev pub nptentries : ℕ
nptentries = 1024

-- PTE_P, PTE_W and PTE_U
abbrev pub pte_p : ℕ
pte_p = 1

abbrev pub pte_w : ℕ
pte_w = 2

abbrev pub pte_u : ℕ
pte_u = 4

-- `pte & PTE_P` and `pte & PTE_U`, as tests
abbrev pub present : ℕ → Bool
present pte = pte % 2 == 1

abbrev pub is_user : ℕ → Bool
is_user pte = pte / 4 % 2 == 1

-- PTE_ADDR and PTE_FLAGS
abbrev pub pte_addr : ℕ → ℕ
pte_addr pte = pte / page_size * page_size

abbrev pub pte_flags : ℕ → ℕ
pte_flags pte = pte % page_size

abbrev pub p2v : ℕ → ℕ
p2v a = (a + kern_base) % 2 ^ 32

-- The address of the table that a directory entry names
abbrev pub table_of : ℕ → ℕ
table_of pde = p2v (pte_addr pde)

-- What walkpgdir returns: the address of the PTE, or 0
pub data Walk : Type 0 where
  entry : ℕ → Kmem → Walk
  no_table : Kmem → Walk

-- What walkpgdir makes of the page that kalloc gave it
enter_table : ℕ → ℕ → ℕ × Kmem → Walk
enter_table dir va (t, k) =
    if t == 0
    then no_table k
    else entry (t + 4 * ptx va) (record k {
      mem =
          store (fill k.mem t 0 page_size) (dir + 4 * pdx va)
            (bit_or (bit_or (bit_or (v2p t) pte_p) pte_w) pte_u);
    })

pub walkpgdir : ℕ → ℕ → Bool → Kmem → Walk
unfolding enter_table
walkpgdir dir va alloc k =
    let pde = load k.mem (dir + 4 * pdx va) in
    if present pde
    then entry (table_of pde + 4 * ptx va) k
    else if alloc
    then enter_table dir va (kalloc k)
    else no_table k

-- *pte = x
abbrev pub set_pte : ℕ → ℕ → Kmem → Kmem
set_pte pte x k = record k { mem = store k.mem pte x }

-- How mappages ends: with 0, or with -1
pub data MapEnd : Type 0 where
  mapped : Kmem → MapEnd
  no_page : Kmem → MapEnd
  remap : MapEnd  -- its panic
  unfinished : MapEnd  -- too little fuel

-- mappages' loop from a on
pub map_from : ℕ → ℕ → ℕ → ℕ → ℕ → ℕ → Kmem → MapEnd
unfolding walkpgdir
map_from zero dir a last pa perm k = unfinished
map_from (suc n) dir a last pa perm k = elim (walkpgdir dir a true k) [
  | no_table k' ↦ no_page k'
  | entry pte k' ↦ elim (present (load k'.mem pte)) [
    | true ↦ remap
    | false ↦
        (let k'' = set_pte pte (bit_or (bit_or pa perm) pte_p) k' in
          elim (a == last) [
            | true ↦ mapped k''
            | false ↦
                map_from n dir ((a + page_size) % 2 ^ 32) last ((pa + page_size) % 2 ^ 32) perm k''
          ])
  ]
]

pub mappages : ℕ → ℕ → ℕ → ℕ → ℕ → Kmem → MapEnd
unfolding map_from
mappages dir va size pa perm k =
    let a = page_round_down va in
    let last = page_round_down ((va + size + (2 ^ 32 - 1)) % 2 ^ 32) in
    map_from (suc ((last + 2 ^ 32 - a) % 2 ^ 32 / page_size)) dir a last pa perm k
