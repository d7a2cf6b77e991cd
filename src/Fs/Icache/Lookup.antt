-- ===== src/Fs/Icache/Lookup.antt =====
-- iget finds the cached inode, or gives it the first free slot.
use cmpt.Prelude.{
  ℕ, zero, suc, ◌+◌, ◌<◌, ◌≡◌, ◌≢◌, refl, ◌∙◌, sym, ap, subst, arith, Bool, true, false, ◌&&◌,
  Option, none, some, ◌==◌, ltb, if◌then◌else◌, update, Bool-cases, inl, inr, ==→eq, ==→ne,
}
use cmpt.Fs.{State, Inode, Run, done, panic, ninode}
use cmpt.Fs.Icache.{Cached, cached, recycled, nothing_empty, empty_slot, find_inode, iget}

-- Slot i is in use for this inode.
abbrev pub hit : (ℕ → Inode) → ℕ → ℕ → ℕ → Bool
hit c dev inum i = ltb 0 (c i).ref && (c i).dev == dev && (c i).inum == inum

-- The slot that the loop remembers before slot i
data Remembered (c : ℕ → Inode) (i : ℕ) : Option ℕ → Type 0 where
  no_slot : ((m : ℕ) → m < i → (c m).ref ≢ 0) → Remembered c i none
  slot :
      {j : ℕ} → j < i → (c j).ref ≡ 0 → ((m : ℕ) → m < j → (c m).ref ≢ 0) → Remembered c i (some j)

data Found (c : ℕ → Inode) (dev inum : ℕ) : Cached → Type 0 where
  found_cached :
      {j : ℕ}
      → j < ninode
      → hit c dev inum j ≡ true
      → ((m : ℕ) → m < j → hit c dev inum m ≡ false)
      → Found c dev inum (cached j)
  found_free :
      {j : ℕ}
      → j < ninode
      → (c j).ref ≡ 0
      → ((m : ℕ) → m < j → (c m).ref ≢ 0)
      → ((m : ℕ) → m < ninode → hit c dev inum m ≡ false)
      → Found c dev inum (recycled j)
  found_full :
      ((m : ℕ) → m < ninode → (c m).ref ≢ 0)
      → ((m : ℕ) → m < ninode → hit c dev inum m ≡ false)
      → Found c dev inum nothing_empty

abbrev remember : (ℕ → Inode) → ℕ → Option ℕ → Option ℕ
remember c i empty = elim empty [ none ↦ if (c i).ref == 0 then some i else none | some j ↦ some j ]

Remembered-next :
    (c : ℕ → Inode) (i : ℕ) (empty : Option ℕ)
    → Remembered c i empty
    → Remembered c (i + 1) (remember c i empty)
Remembered-next c i none (no_slot all) = elim (Bool-cases ((c i).ref == 0)) [
  | inl e ↦ rw e (slot (omega arith) (==→eq (c i).ref 0 e) all)
  | inr e ↦ rw e (
      no_slot (λ m lt. elim (Bool-cases (m == i)) [
        | inl q ↦ subst (λ k. (c k).ref ≢ 0) (sym (==→eq m i q)) (==→ne (c i).ref 0 e)
        | inr q ↦ all m (omega (arith, lt, ==→ne m i q))
      ]))
]
Remembered-next c i (some j) (slot lt free all) = slot (omega (arith, lt)) free all

find_inode-Found :
    (n i : ℕ) (empty : Option ℕ) (dev inum : ℕ) (c : ℕ → Inode)
    → i + n ≡ ninode
    → ((m : ℕ) → m < i → hit c dev inum m ≡ false)
    → Remembered c i empty
    → Found c dev inum (find_inode n i empty dev inum c)
unfolding find_inode empty_slot
find_inode-Found zero i none dev inum c e miss (no_slot all) =
    found_full (λ m lt. all m (omega (arith, e, lt))) (λ m lt. miss m (omega (arith, e, lt)))
find_inode-Found zero i (some j) dev inum c e miss (slot lt free all) =
    found_free (omega (arith, e, lt)) free all (λ m l. miss m (omega (arith, e, l)))
find_inode-Found (suc n) i empty dev inum c e miss r = elim (Bool-cases (hit c dev inum i)) [
  | inl h ↦ rw (find_inode, h) (found_cached (omega (arith, e)) h miss)
  | inr h ↦
      rw (find_inode, h)
        (find_inode-Found n (i + 1) (remember c i empty) dev inum c (omega (arith, e))
          (λ m lt. elim (Bool-cases (m == i)) [
            | inl q ↦ ap (hit c dev inum) (==→eq m i q) ∙ h
            | inr q ↦ miss m (omega (arith, lt, ==→ne m i q))
          ])
          (Remembered-next c i empty r))
]

-- No two slots in use hold the same inode.
abbrev pub Unique : (ℕ → Inode) → Type 0
Unique c =
    (i j : ℕ)
    → i < ninode
    → j < ninode
    → 0 < (c i).ref
    → 0 < (c j).ref
    → (c i).dev ≡ (c j).dev
    → (c i).inum ≡ (c j).inum
    → i ≡ j

-- The ends of iget
pub data Igot (dev inum : ℕ) (s : State) : Run ℕ → Type 0 where
  shared :
      {i : ℕ}
      → i < ninode
      → hit s.icache dev inum i ≡ true
      → Igot dev inum s (
          done i (record s {
            icache = update s.icache i (record (s.icache i) { ref = (s.icache i).ref + 1 });
          }))
  fresh :
      {i : ℕ}
      → i < ninode
      → (s.icache i).ref ≡ 0
      → ((m : ℕ) → m < i → (s.icache m).ref ≢ 0)
      → ((m : ℕ) → m < ninode → hit s.icache dev inum m ≡ false)
      → Igot dev inum s (
          done i (record s {
            icache = update s.icache i (record (s.icache i) {
              dev = dev;
              inum = inum;
              ref = 1;
              busy = false;
              valid = false;
            });
          }))
  full :
      ((m : ℕ) → m < ninode → (s.icache m).ref ≢ 0)
      → ((m : ℕ) → m < ninode → hit s.icache dev inum m ≡ false)
      → Igot dev inum s panic

pub iget-Igot : (dev inum : ℕ) (s : State) → Igot dev inum s (iget dev inum s)
unfolding iget
iget-Igot dev inum s = of (find_inode ninode 0 none dev inum s.icache) refl (
    find_inode-Found ninode 0 none dev inum s.icache refl (λ m lt. absurd (omega arith))
      (no_slot (λ m lt. absurd (omega arith))))
  where
    of :
        (o : Cached)
        → find_inode ninode 0 none dev inum s.icache ≡ o
        → Found s.icache dev inum o
        → Igot dev inum s (iget dev inum s)
    of (cached i) e (found_cached lt h _) = rw (iget, e) (shared lt h)
    of (recycled i) e (found_free lt free before miss) = rw (iget, e) (fresh lt free before miss)
    of nothing_empty e (found_full all miss) = rw (iget, e) (full all miss)
