-- ===== src/Fs/Icache/Sharing.antt =====
-- Callers of iget for the same inode share one slot.
use cmpt.Prelude.{
  false-ne_true, ℕ, ◌+◌, ◌<◌, ◌≡◌, ◌≢◌, refl, ◌∙◌, sym, ap, subst, arith, true, false, ◌==◌, update,
  update-ne, update_self, Bool-cases, inl, inr, ==→eq, ==→ne, eq→==, lt→ltb,
}
use cmpt.Fs.{State, Inode, Run, done, panic, ninode}
use cmpt.Fs.Icache.{iget}
use cmpt.Fs.Icache.Lookup.{hit, Unique, Igot, shared, fresh, full, iget-Igot}

-- What iget gives: the slot in use for the inode with one reference more, or the first slot without
-- references, with the inode's numbers, one reference and no flags; only the cache changes.
pub data Given (dev inum : ℕ) (s : State) : Run ℕ → Type 0 where
  given :
      {i : ℕ} {t : State}
      → i < ninode
      → hit t.icache dev inum i ≡ true
      → Unique t.icache
      → (0 < (s.icache i).ref
          → (hit s.icache dev inum i ≡ true)
            × (t.icache i ≡ record (s.icache i) { ref = (s.icache i).ref + 1 }))
      → ((s.icache i).ref ≡ 0
          → ((m : ℕ) → m < i → (s.icache m).ref ≢ 0)
            × ((m : ℕ) → m < ninode → hit s.icache dev inum m ≡ false)
            × (t.icache i ≡ record (s.icache i) {
              dev = dev;
              inum = inum;
              ref = 1;
              busy = false;
              valid = false;
            }))
      → ((j : ℕ) → j ≢ i → t.icache j ≡ s.icache j)
      → (t.view ≡ s.view) × (t.sb ≡ s.sb)
      → Given dev inum s (done i t)
  none_left :
      ((m : ℕ) → m < ninode → (s.icache m).ref ≢ 0)
      → ((m : ℕ) → m < ninode → hit s.icache dev inum m ≡ false)
      → Given dev inum s panic

-- What a hit says
hit_parts :
    (c : ℕ → Inode) (dev inum i : ℕ)
    → hit c dev inum i ≡ true
    → (0 < (c i).ref) × ((c i).dev ≡ dev) × ((c i).inum ≡ inum)
hit_parts c dev inum i h = (ground (arith, h), ground (arith, h), ground (arith, h))

make_hit :
    (c : ℕ → Inode) (dev inum i : ℕ)
    → 0 < (c i).ref
    → (c i).dev ≡ dev
    → (c i).inum ≡ inum
    → hit c dev inum i ≡ true
make_hit c dev inum i r d n =
    rw (lt→ltb 0 (c i).ref r, eq→== (c i).dev dev d, eq→== (c i).inum inum n) refl

module _ (c : ℕ → Inode) (i : ℕ) (x : Inode) where
  Unique-update :
      Unique c
      → ((j : ℕ) → j < ninode → j ≢ i → 0 < (c j).ref → (c j).dev ≡ x.dev → (c j).inum ≡ x.inum → ⊥)
      → Unique (update c i x)
  Unique-update u apart j k lj lk rj rk d n = elim (Bool-cases (j == i)) [
    | inl e ↦ elim (Bool-cases (k == i)) [
      | inl e' ↦ ==→eq j i e ∙ sym (==→eq k i e')
      | inr e' ↦
          let p = update_self c i x j (==→eq j i e) in
          let q = update-ne c i x k (==→ne k i e') in
          absurd (
            apart k lk (==→ne k i e') (subst (λ (y : Inode). 0 < y.ref) q rk)
              (sym (ap (λ (y : Inode). y.dev) q) ∙ sym d ∙ ap (λ (y : Inode). y.dev) p)
              (sym (ap (λ (y : Inode). y.inum) q) ∙ sym n ∙ ap (λ (y : Inode). y.inum) p))
    ]
    | inr e ↦
        let q = update-ne c i x j (==→ne j i e) in
        elim (Bool-cases (k == i)) [
          | inl e' ↦
              let p = update_self c i x k (==→eq k i e') in
              absurd (
                apart j lj (==→ne j i e) (subst (λ (y : Inode). 0 < y.ref) q rj)
                  (sym (ap (λ (y : Inode). y.dev) q) ∙ d ∙ ap (λ (y : Inode). y.dev) p)
                  (sym (ap (λ (y : Inode). y.inum) q) ∙ n ∙ ap (λ (y : Inode). y.inum) p))
          | inr e' ↦
              let p = update-ne c i x k (==→ne k i e') in
              u j k lj lk (subst (λ (y : Inode). 0 < y.ref) q rj)
                (subst (λ (y : Inode). 0 < y.ref) p rk)
                (sym (ap (λ (y : Inode). y.dev) q) ∙ d ∙ ap (λ (y : Inode). y.dev) p)
                (sym (ap (λ (y : Inode). y.inum) q) ∙ n ∙ ap (λ (y : Inode). y.inum) p)
        ]
  ]

-- iget gives the one slot that is in use for the inode, with one reference more and nothing else
-- changed. If none is, it gives the first slot without references, with the numbers of the inode,
-- one reference and both flags cleared. No two slots in use come to hold the same inode; no other
-- slot, block or field of the super block changes. It panics exactly when every slot is in use,
-- and none for this inode.
pub iget-Given : (dev inum : ℕ) (s : State) → Unique s.icache → Given dev inum s (iget dev inum s)
iget-Given dev inum s u = of (iget dev inum s) (iget-Igot dev inum s)
  where
    of : (r : Run ℕ) → Igot dev inum s r → Given dev inum s r
    of _ (shared {i} lt h) =
        let (r, d, n) = hit_parts s.icache dev inum i h in
        let x : Inode = record (s.icache i) { ref = (s.icache i).ref + 1 } in
        let e : update s.icache i x i ≡ x = update_self s.icache i x i refl in
        given lt
          (make_hit (update s.icache i x) dev inum i
            (subst (λ (y : Inode). 0 < y.ref) (sym e) (omega arith))
            (ap (λ (y : Inode). y.dev) e ∙ d) (ap (λ (y : Inode). y.inum) e ∙ n))
          (Unique-update s.icache i x u (λ j lj ne rj dj nj. ne (u j i lj lt rj r dj nj)))
          (λ _. (h, e)) (λ z. absurd (omega (arith, r, z))) (λ j ne. update-ne s.icache i x j ne)
          (refl, refl)
    of _ (fresh {i} lt free before miss) =
        let x : Inode = record (s.icache i) {
          dev = dev;
          inum = inum;
          ref = 1;
          busy = false;
          valid = false;
        } in
        let e : update s.icache i x i ≡ x = update_self s.icache i x i refl in
        given lt
          (make_hit (update s.icache i x) dev inum i
            (subst (λ (y : Inode). 0 < y.ref) (sym e) (omega arith)) (ap (λ (y : Inode). y.dev) e)
            (ap (λ (y : Inode). y.inum) e))
          (Unique-update s.icache i x u (λ j lj ne rj dj nj.
            false-ne_true (sym (miss j lj) ∙ make_hit s.icache dev inum j rj dj nj)))
          (λ r. absurd (omega (arith, r, free))) (λ _. (before, miss, e))
          (λ j ne. update-ne s.icache i x j ne) (refl, refl)
    of _ (full all miss) = none_left all miss
