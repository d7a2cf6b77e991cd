-- ===== src/Proc/Life/Exit.antt =====
-- What exit's run under ptable.lock makes of the other slots.
use cmpt.Prelude.{
  ℕ, zero, suc, ◌+◌, ◌<◌, ◌≤◌, ◌≡◌, ◌≢◌, subst, inl, inr, refl, ◌∙◌, sym, ap, arith, true, some,
  ◌==◌, update, update-ne, update_self, Bool-cases, some_eq, ==→eq, ==→ne, tests,
}
use cmpt.Proc.{Proc, Table, zombie, nproc, is_zombie, is_slot, for_slots, wakeup1}
use cmpt.Proc.Loops.{wakeup1_at}
use cmpt.Proc.Services.{Services}
use cmpt.Proc.Life.{abandon, exit_table, chan_of}
use cmpt.Proc.Life.Passed.{
  SleepsOn, Passed, Passed-refl, Passed-trans, woken-Passed, woken-SleepsOn, is_slot→some,
  zombie→is_zombie, some→is_slot, woken_zombie, woken_parent, true-ne_false,
}

module _ {R : Type 0} (v : Services R) (init me : ℕ) where
  pub wakeup1-Passed :
      (chan j : ℕ) (t : Table) → j < nproc → Passed init me (t j) (wakeup1 chan t j)
  wakeup1-Passed chan j t lt = rw (wakeup1_at chan j t lt) (woken-Passed init me chan (t j))

  adopt : ℕ → Table → Table
  adopt i t = update t i (record (t i) { parent = some init })

  adopt-Passed :
      (i j : ℕ) (t : Table) → is_slot (t i).parent me ≡ true → Passed init me (t j) (adopt i t j)
  unfolding adopt
  adopt-Passed i j t mine = elim (Bool-cases (j == i)) [
    | inl here ↦
        rw (==→eq j i here, update_self t i (record (t i) { parent = some init }) i refl)
          (record {
            zombie_before = λ e. e;
            asleep_before = λ c s. s;
            alive_after = λ e. e;
            adopted = inr (is_slot→some (t i).parent me mine, refl);
          })
    | inr other ↦
        rw (update-ne t i (record (t i) { parent = some init }) j (==→ne j i other))
          (Passed-refl init me (t j))
  ]

  abandon-Passed :
      (i j : ℕ) (t : Table) → j < nproc → Passed init me (t j) (abandon v init me i t j)
  unfolding abandon adopt
  abandon-Passed i j t lt = elim (Bool-cases (is_slot (t i).parent me)) [
    | inr other ↦ rw other (Passed-refl init me (t j))
    | inl mine ↦ elim (Bool-cases (is_zombie (t i).state)) [
      | inr live ↦ rw (mine, live) (adopt-Passed i j t mine)
      | inl dead ↦
          rw (mine, dead)
            (Passed-trans init me (adopt-Passed i j t mine)
              (wakeup1-Passed (v.slot_addr init) j (adopt i t) lt))
    ]
  ]

  pub loop-Passed :
      (k i j : ℕ) (t : Table)
      → j < nproc
      → Passed init me (t j) (for_slots k i (abandon v init me) t j)
  unfolding for_slots
  loop-Passed zero i j t lt = Passed-refl init me (t j)
  loop-Passed (suc k) i j t lt =
      Passed-trans init me (abandon-Passed i j t lt)
        (loop-Passed k (i + 1) j (abandon v init me i t) lt)

  -- A zombie of the slots to come is still there, and still an orphan, when the loop reaches it.
  abandon-ne :
      (i m : ℕ) (t : Table)
      → m < nproc
      → m ≢ i
      → (t m).state ≡ zombie
      → abandon v init me i t m ≡ t m
  unfolding abandon adopt
  abandon-ne i m t lt ne dead = elim (Bool-cases (is_slot (t i).parent me)) [
    | inr other ↦ rw other refl
    | inl mine ↦
        let kept : adopt i t m ≡ t m = update-ne t i (record (t i) { parent = some init }) m ne in
        elim (Bool-cases (is_zombie (t i).state)) [
          | inr live ↦ rw (mine, live) kept
          | inl dead' ↦
              rw (mine, dead')
                (wakeup1_at (v.slot_addr init) m (adopt i t) lt
                  ∙ woken_zombie (v.slot_addr init) (adopt i t m)
                      (ap (λ (p : Proc). p.state) kept ∙ dead)
                  ∙ kept)
        ]
  ]

  abandon-wakes :
      (i j : ℕ) (t : Table)
      → j < nproc
      → (t i).parent ≡ some me
      → (t i).state ≡ zombie
      → ¬ SleepsOn (v.slot_addr init) (abandon v init me i t j)
  unfolding abandon adopt
  abandon-wakes i j t lt mine dead s =
      let woke : abandon v init me i t ≡ wakeup1 (v.slot_addr init) (adopt i t) =
        rw (some→is_slot (t i).parent me mine, zombie→is_zombie (t i).state dead) refl in
      woken-SleepsOn (v.slot_addr init) (adopt i t j) (
        subst (SleepsOn (v.slot_addr init))
          (ap (λ u. u j) woke ∙ wakeup1_at (v.slot_addr init) j (adopt i t) lt) s)

  -- If the loop passes an orphaned zombie, nobody sleeps on init's channel behind it.
  pub loop-wakes :
      (k i m j : ℕ) (t : Table)
      → i ≤ m
      → m < i + k
      → m < nproc
      → j < nproc
      → (t m).parent ≡ some me
      → (t m).state ≡ zombie
      → ¬ SleepsOn (v.slot_addr init) (for_slots k i (abandon v init me) t j)
  unfolding for_slots
  loop-wakes zero i m j t le lt lm lj mine dead s = omega arith
  loop-wakes (suc k) i m j t le lt lm lj mine dead s = elim (Bool-cases (m == i)) [
    | inl here ↦
        let e : m ≡ i = ==→eq m i here in
        abandon-wakes i j t lj (ap (λ n. (t n).parent) (sym e) ∙ mine)
          (ap (λ n. (t n).state) (sym e) ∙ dead)
          ((loop-Passed k (i + 1) j (abandon v init me i t) lj).asleep_before (v.slot_addr init) s)
    | inr later ↦
        let ne : m ≢ i = ==→ne m i later in
        let same : abandon v init me i t m ≡ t m = abandon-ne i m t lm ne dead in
        loop-wakes k (i + 1) m j (abandon v init me i t) (omega arith) (omega arith) lm lj
          (ap (λ (p : Proc). p.parent) same ∙ mine) (ap (λ (p : Proc). p.state) same ∙ dead) s
  ]

  -- The loop leaves no child of the process.
  abandon-parent :
      (i : ℕ) (t : Table) → init ≢ me → i < nproc → (abandon v init me i t i).parent ≢ some me
  unfolding abandon adopt
  abandon-parent i t ne lt e = elim (Bool-cases (is_slot (t i).parent me)) [
    | inr other ↦
        let stays : abandon v init me i t i ≡ t i = rw other refl in
        true-ne_false
          (sym (some→is_slot (t i).parent me (ap (λ (p : Proc). p.parent) (sym stays) ∙ e)) ∙ other)
    | inl mine ↦
        let self : adopt i t i ≡ record (t i) { parent = some init } =
          update_self t i (record (t i) { parent = some init }) i refl in
        elim (Bool-cases (is_zombie (t i).state)) [
          | inr live ↦
              let now : abandon v init me i t i ≡ adopt i t i = rw (mine, live) refl in
              ne (some_eq (sym (ap (λ (p : Proc). p.parent) (now ∙ self)) ∙ e))
          | inl dead ↦
              let now : abandon v init me i t i ≡ wakeup1 (v.slot_addr init) (adopt i t) i =
                rw (mine, dead) refl in
              ne (
                some_eq (
                  sym (
                    ap (λ (p : Proc). p.parent)
                      (now ∙ wakeup1_at (v.slot_addr init) i (adopt i t) lt)
                    ∙ woken_parent (v.slot_addr init) (adopt i t i)
                    ∙ ap (λ (p : Proc). p.parent) self)
                  ∙ e))
        ]
  ]

  pub loop-parent :
      (k i m : ℕ) (t : Table)
      → init ≢ me
      → i ≤ m
      → m < i + k
      → m < nproc
      → (for_slots k i (abandon v init me) t m).parent ≢ some me
  unfolding for_slots
  loop-parent zero i m t ne le lt lm e = omega arith
  loop-parent (suc k) i m t ne le lt lm e = elim (Bool-cases (m == i)) [
    | inl here ↦
        let gone : (abandon v init me i t m).parent ≢ some me = λ f.
          abandon-parent i t ne (omega (arith, ==→eq m i here))
            (ap (λ n. (abandon v init me i t n).parent) (sym (==→eq m i here)) ∙ f) in
        elim (loop-Passed k (i + 1) m (abandon v init me i t) lm).adopted [
          | inl same ↦ gone (sym same ∙ e)
          | inr (before, _) ↦ gone before
        ]
    | inr later ↦
        loop-parent k (i + 1) m (abandon v init me i t) ne (omega (tests, ==→ne m i later))
          (omega arith) lm e
  ]

-- After the run under ptable.lock of exit, called by a process other than init, the process is a
-- zombie, no slot of the table has it as parent, and every child that it had has init as parent.
pub exit_table-orphans :
    {R : Type 0} (v : Services R) (init me : ℕ) (t : Table)
    → init ≢ me
    → me < nproc
    → ((exit_table v init me t me).state ≡ zombie)
      × ((m : ℕ)
          → m < nproc
          → ((exit_table v init me t m).parent ≢ some me)
            × ((t m).parent ≡ some me → (exit_table v init me t m).parent ≡ some init))
unfolding exit_table chan_of
exit_table-orphans v init me t ne lt = (
  ap (λ (p : Proc). p.state) (update_self u me _ me refl),
  λ m lm. (λ e. left m lm (sym (same m) ∙ e), λ mine. same m ∙ given m lm mine),
)
  where
    w : Table
    w = wakeup1 (chan_of v (t me).parent) t

    u : Table
    u = for_slots nproc 0 (abandon v init me) w

    same : (m : ℕ) → (update u me (record (u me) { state = zombie }) m).parent ≡ (u m).parent
    same m = elim (Bool-cases (m == me)) [
      | inl e ↦
          let f : m ≡ me = ==→eq m me e in
          subst (λ n. (update u me (record (u me) { state = zombie }) n).parent ≡ (u n).parent)
            (sym f) (ap (λ (p : Proc). p.parent) (update_self u me _ me refl))
      | inr e ↦ ap (λ (p : Proc). p.parent) (update-ne u me _ m (==→ne m me e))
    ]

    left : (m : ℕ) → m < nproc → (u m).parent ≢ some me
    left m lm = loop-parent v init me nproc 0 m w ne (omega arith) lm lm

    given : (m : ℕ) → m < nproc → (t m).parent ≡ some me → (u m).parent ≡ some init
    given m lm mine =
        let kept : (w m).parent ≡ (t m).parent =
          ap (λ (p : Proc). p.parent) (wakeup1_at (chan_of v (t me).parent) m t lm)
          ∙ woken_parent (chan_of v (t me).parent) (t m) in
        elim (loop-Passed v init me nproc 0 m w lm).adopted [
          | inl stays ↦ absurd (left m lm (stays ∙ kept ∙ mine))
          | inr (_, now) ↦ now
        ]
