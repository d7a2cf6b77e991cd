-- ===== src/Proc/Loops.antt =====
-- The loops over the table, slot by slot.
use cmpt.Prelude.{
  ℕ, zero, suc, ◌+◌, ◌<◌, ◌≤◌, ◌≡◌, ◌≢◌, inl, inr, refl, ◌∙◌, ap, arith, Bool, true, false, ◌&&◌,
  Option, none, some, ◌==◌, if◌then◌else◌, update-ne, update_self, Bool-cases, ==→eq, ==→ne, tests,
}
use cmpt.Proc.{Proc, Table, runnable, nproc, is_sleeping, for_slots, find_slot, wake_slot, wakeup1}

-- A body that changes its own slot only, by f.
for_slots_below :
    (k i j : ℕ) (body : ℕ → Table → Table) (t : Table)
    → ((m n : ℕ) (u : Table) → n ≢ m → body m u n ≡ u n)
    → j < i
    → for_slots k i body t j ≡ t j
unfolding for_slots
for_slots_below zero i j body t own lt = refl
for_slots_below (suc k) i j body t own lt =
    for_slots_below k (i + 1) j body (body i t) own (omega arith) ∙ own i j t (omega arith)

pub for_slots_at :
    (k i j : ℕ) (body : ℕ → Table → Table) (f : Proc → Proc) (t : Table)
    → ((m n : ℕ) (u : Table) → n ≢ m → body m u n ≡ u n)
    → ((m : ℕ) (u : Table) → body m u m ≡ f (u m))
    → i ≤ j
    → j < i + k
    → for_slots k i body t j ≡ f (t j)
unfolding for_slots
for_slots_at zero i j body f t own at le lt = absurd (omega arith)
for_slots_at (suc k) i j body f t own at le lt = elim (Bool-cases (j == i)) [
  | inl here ↦
      let e : j ≡ i = ==→eq j i here in
      rw e (for_slots_below k (i + 1) i body (body i t) own (omega arith) ∙ at i t)
  | inr later ↦
      for_slots_at k (i + 1) j body f (body i t) own at (omega (tests, ==→ne j i later))
        (omega arith)
      ∙ ap f (own i j t (==→ne j i later))
]

-- what wakeup1 makes of one slot
abbrev pub woken : ℕ → Proc → Proc
woken chan p = if is_sleeping p.state && (p.chan == chan) then record p { state = runnable } else p

wake_slot_ne : (chan m n : ℕ) (u : Table) → n ≢ m → wake_slot chan m u n ≡ u n
unfolding wake_slot
wake_slot_ne chan m n u ne = elim (Bool-cases (is_sleeping (u m).state && ((u m).chan == chan))) [
  | inl wakes ↦ rw wakes (update-ne u m _ n ne)
  | inr stays ↦ rw stays
]

wake_slot_self : (chan m : ℕ) (u : Table) → wake_slot chan m u m ≡ woken chan (u m)
unfolding wake_slot
wake_slot_self chan m u = elim (Bool-cases (is_sleeping (u m).state && ((u m).chan == chan))) [
  | inl wakes ↦ rw wakes (update_self u m _ m refl)
  | inr stays ↦ rw stays
]

-- Of the slots of the table wakeup1 makes runnable exactly those that sleep on the channel, and it
-- changes nothing else in them.
pub wakeup1_at : (chan i : ℕ) (t : Table) → i < nproc → wakeup1 chan t i ≡ woken chan (t i)
unfolding wakeup1
wakeup1_at chan i t lt =
    for_slots_at nproc 0 i (wake_slot chan) (woken chan) t (wake_slot_ne chan) (wake_slot_self chan)
      (omega arith) (omega arith)

-- What a search finds.
pub data Search (i k : ℕ) (test : Proc → Bool) (t : Table) : Option ℕ → Type 0 where
  found :
      {j : ℕ}
      → i ≤ j
      → j < i + k
      → test (t j) ≡ true
      → ((m : ℕ) → i ≤ m → m < j → test (t m) ≡ false)
      → Search i k test t (some j)
  missing : ((m : ℕ) → i ≤ m → m < i + k → test (t m) ≡ false) → Search i k test t none

pub find_slot-Search :
    (k i : ℕ) (test : Proc → Bool) (t : Table) → Search i k test t (find_slot k i test t)
unfolding find_slot
find_slot-Search zero i test t = missing (λ m le lt. absurd (omega arith))
find_slot-Search (suc k) i test t = elim (Bool-cases (test (t i))) [
  | inl here ↦ rw here (found (omega arith) (omega arith) here (λ m le lt. absurd (omega arith)))
  | inr other ↦ rw other (widen other (find_slot-Search k (i + 1) test t))
]
  where
    widen :
        {o : Option ℕ} → test (t i) ≡ false → Search (i + 1) k test t o → Search i (suc k) test t o
    widen other (found le lt pass first) = found (omega arith) (omega arith) pass (λ m lem ltm.
        elim (Bool-cases (m == i)) [
          | inl same ↦ rw (==→eq m i same) other
          | inr up ↦ first m (omega (tests, ==→ne m i up)) ltm
        ])
    widen other (missing all) = missing (λ m lem ltm. elim (Bool-cases (m == i)) [
      | inl same ↦ rw (==→eq m i same) other
      | inr up ↦ all m (omega (tests, ==→ne m i up)) (omega arith)
    ])
