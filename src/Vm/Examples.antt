-- ===== src/Vm/Examples.antt =====
-- An empty page directory, with two free pages beside it.
use cmpt.Prelude.{ℕ, ◌*◌, ◌<◌, ◌≡◌, refl, ◌∙◌, ap, arith, true, false, [], ◌∷◌, false-ne_true, sym}
use cmpt.Kalloc.{Memory, load, store, page_size}
use cmpt.Kalloc.Owners.{System, Divided}
use cmpt.Vm.{present, pdx, mappages}
use cmpt.Vm.Tables.{pde, pte_of, Space}
use cmpt.Vm.Mappings.{Maps, mappages-Maps}

abbrev kernel_end : ℕ
kernel_end = 0x80100123

abbrev pgdir : ℕ
pgdir = 0x80103000

abbrev blank : Memory
blank = store (λ _. 0) 0x80102000 0x80101000

abbrev two_free : System
two_free = record {
  kmem = record { mem = blank; use_lock = false; freelist = 0x80102000 };
  owned = pgdir ∷ [];
}

two_free-Divided : Divided kernel_end 3 two_free
unfolding load store
two_free-Divided = record {
  free = 0x80102000 ∷ 0x80101000 ∷ [];
  chain = (refl, omega arith, refl, (refl, omega arith, refl, refl));
  owned_page = λ w h. ground arith;
  distinct = (refl, tt);
  count = refl;
}

blank-pde : (i : ℕ) → i < 1024 → pde blank pgdir i ≡ 0
unfolding load store
blank-pde i lt = ground arith

blank_absent : {A : Type 0} (i : ℕ) → i < 1024 → present (pde blank pgdir i) ≡ true → A
blank_absent i lt p = absurd (false-ne_true (sym (ap present (blank-pde i lt)) ∙ p))

two_free-Space : Space kernel_end 3 pgdir two_free
two_free-Space = record {
  divided = two_free-Divided;
  directory = record {
    aligned = refl;
    dir_owned = refl;
    table_owned = λ i l p. blank_absent i l p;
    table_ne = λ i l p. blank_absent i l p;
    apart = λ i j li lj p q e. blank_absent i li p;
  };
}

blank_unmapped : (va : ℕ) → present (pte_of blank pgdir va) ≡ false
blank_unmapped va =
    let e : present (pde blank pgdir (pdx va)) ≡ false =
      ap present (blank-pde (pdx va) (omega arith)) in
    rw e refl

-- Two pages from 0x1000 on, to 0x200000
mappages-Maps_example :
    Maps kernel_end 3 pgdir 0x1000 2 0x200000 6 two_free
      (mappages pgdir 0x1000 (2 * page_size) 0x200000 6 two_free.kmem)
mappages-Maps_example =
    mappages-Maps kernel_end 3 pgdir 0x1000 1 0x200000 6 two_free two_free-Space
      (record {
        aligned = refl;
        pa_aligned = refl;
        inside = omega arith;
        pa_inside = omega arith;
        flags = omega arith;
      })
      (λ va ge lt. blank_unmapped va)
