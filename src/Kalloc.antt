-- ===== src/Kalloc.antt =====
-- xv6-public/kalloc.c: the allocator of physical pages, over byte memory that holds the free list.
-- The spin lock changes no byte of it: a call is a step of its own.
pub mod Chain
pub mod Owners
pub mod Range
mod Examples
use cmpt.Prelude.{
  ℕ, zero, suc, ◌+◌, ◌-◌, ◌*◌, ◌/◌, ◌%◌, ◌^◌, Bool, true, false, not, ◌&&◌, ◌||◌, Option, none,
  some, ◌==◌, ltb, leb, if◌then◌else◌,
}

-- PGSIZE
abbrev pub page_size : ℕ
page_size = 4096

-- KERNBASE
abbrev pub kern_base : ℕ
kern_base = 0x80000000

-- PHYSTOP
abbrev pub phys_stop : ℕ
phys_stop = 0xE000000

-- v2p, on a `uint`
abbrev pub v2p : ℕ → ℕ
v2p v = (v + 2 ^ 32 - kern_base) % 2 ^ 32

-- PGROUNDUP, on a `uint`
abbrev pub page_round_up : ℕ → ℕ
page_round_up a = (a + (page_size - 1)) % 2 ^ 32 / page_size * page_size

abbrev pub Memory : Type 0
Memory = ℕ → ℕ

-- `r->next`
unfoldable pub load : Memory → ℕ → ℕ
load mem v = mem v + 256 * mem (v + 1) + 65536 * mem (v + 2) + 16777216 * mem (v + 3)

-- `r->next = x`
unfoldable pub store : Memory → ℕ → ℕ → Memory
store mem v x a =
    if a == v
    then x % 256
    else if a == v + 1
    then x / 256 % 256
    else if a == v + 2
    then x / 65536 % 256
    else if a == v + 3
    then x / 16777216 % 256
    else mem a

-- memset(v, c, n)
unfoldable pub fill : Memory → ℕ → ℕ → ℕ → Memory
fill mem v c n a = if leb v a && ltb a (v + n) then c % 256 else mem a

-- The allocator's struct, with the memory that its list runs through.
pub record Kmem : Type 0 where
  pub mem : Memory
  pub use_lock : Bool
  pub freelist : ℕ

-- more rounds than the loop of freerange makes between two addresses
abbrev pub page_fuel : ℕ → ℕ → ℕ
page_fuel p vend = suc ((vend - p) / page_size)

-- `end` is the first address after the kernel, from kernel.ld.
module _ (end : ℕ) where
  -- the test of kfree
  pub bad_page : ℕ → Bool
  bad_page v = not (v % page_size == 0) || ltb v end || leb phys_stop (v2p v)

  -- `none` is a panic.
  pub kfree : ℕ → Kmem → Option Kmem
  unfolding bad_page store fill
  kfree v k =
      if bad_page v
      then none
      else some (record k { mem = store (fill k.mem v 1 page_size) v k.freelist; freelist = v })

  -- The loop of freerange from p on; `none` also if it takes n rounds or more.
  free_pages : ℕ → ℕ → ℕ → Kmem → Option Kmem
  unfolding kfree
  free_pages zero p vend k = none
  free_pages (suc n) p vend k = elim (leb ((p + page_size) % 2 ^ 32) vend) [
    | false ↦ some k
    | true ↦ elim (kfree p k) [
      | none ↦ none
      | some k' ↦ free_pages n ((p + page_size) % 2 ^ 32) vend k'
    ]
  ]

  pub freerange : ℕ → ℕ → Kmem → Option Kmem
  unfolding free_pages
  freerange vstart vend k = let p = page_round_up vstart in free_pages (page_fuel p vend) p vend k

  pub kinit1 : ℕ → ℕ → Kmem → Option Kmem
  unfolding freerange
  kinit1 vstart vend k = freerange vstart vend (record k { use_lock = false })

  pub kinit2 : ℕ → ℕ → Kmem → Option Kmem
  unfolding freerange
  kinit2 vstart vend k = elim (freerange vstart vend k) [
    | none ↦ none
    | some k' ↦ some (record k' { use_lock = true })
  ]

-- kalloc: the page, or 0.
pub kalloc : Kmem → ℕ × Kmem
unfolding load
kalloc k =
    if k.freelist == 0 then (0, k) else (k.freelist, record k { freelist = load k.mem k.freelist })
