-- ===== src/Kalloc/Examples.antt =====
-- The allocator over three pages.
use cmpt.Prelude.{
  ℕ, ◌-◌, ◌/◌, ◌≡◌, ◌≢◌, ◌↔◌, refl, arith, false, Option, none, some, [], ◌∷◌, length,
}
use cmpt.Kalloc.{Kmem, kfree, kalloc, freerange, load, page_size, page_round_up}
use cmpt.Kalloc.Chain.{has, IsPage, Chain}
use cmpt.Kalloc.Owners.{
  System, Reach, start, later, allocates, Divided, kalloc_exclusive, kalloc-kfree,
}
use cmpt.Kalloc.Range.{pages, freerange-Chain}

abbrev end_of_kernel : ℕ
end_of_kernel = 0x80100123

abbrev empty : Kmem
empty = record { mem = λ _. 0; use_lock = false; freelist = 0 }

freerange-Chain_example :
    (k : Kmem) × (freerange end_of_kernel 0x80100123 0x80104000 empty ≡ some k)
    × Chain end_of_kernel k.mem k.freelist
        (pages ((0x80104000 - page_round_up 0x80100123) / page_size) (page_round_up 0x80100123) [])
freerange-Chain_example =
    freerange-Chain end_of_kernel 0x80100123 0x80104000 empty [] (omega arith) (omega arith)
      (omega arith) (omega arith) (λ w h. ground arith) refl

abbrev kmem_of : Option Kmem → Kmem
kmem_of none = empty
kmem_of (some k) = k

abbrev filled : Kmem
filled = kmem_of (freerange end_of_kernel 0x80100123 0x80104000 empty)

abbrev three_pages : System
three_pages = record { kmem = filled; owned = [] }

three_pages-Divided : Divided end_of_kernel 3 three_pages
unfolding freerange load
three_pages-Divided = record {
  free = 0x80103000 ∷ 0x80102000 ∷ 0x80101000 ∷ [];
  chain = (refl, omega arith, refl, (refl, omega arith, refl, (refl, omega arith, refl, refl)));
  owned_page = λ w h. ground arith;
  distinct = tt;
  count = refl;
}

abbrev one_owned : System
one_owned = record { kmem = (kalloc filled).1; owned = (kalloc filled).0 ∷ [] }

one_owned-Reach : Reach end_of_kernel three_pages one_owned
unfolding kalloc freerange
one_owned-Reach = later start (allocates refl (omega arith))

abbrev next_page : ℕ
next_page = (kalloc one_owned.kmem).0

kalloc_exclusive_example :
    ((next_page ≡ 0) ↔ (length one_owned.owned ≡ 3))
    × (next_page ≢ 0 → IsPage end_of_kernel next_page × (has next_page one_owned.owned ≡ false))
kalloc_exclusive_example =
    kalloc_exclusive {k = (kalloc one_owned.kmem).1} three_pages-Divided one_owned-Reach refl

kalloc-kfree_example :
    (k : Kmem) × (kfree end_of_kernel 0x80103000 one_owned.kmem ≡ some k)
    × ((kalloc k).0 ≡ 0x80103000)
    × ((kalloc k).1.freelist ≡ one_owned.kmem.freelist)
unfolding kalloc freerange
kalloc-kfree_example = kalloc-kfree 0x80103000 three_pages-Divided one_owned-Reach refl
