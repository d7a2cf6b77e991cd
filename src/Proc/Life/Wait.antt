-- ===== src/Proc/Life/Wait.antt =====
-- wait: what its scan finds, and what it leaves.
use cmpt.Prelude.{
  ℕ, zero, suc, ◌+◌, ◌<◌, ◌≤◌, ◌≡◌, ◌≢◌, ◌⊎◌, inl, inr, refl, ◌∙◌, sym, ap, arith, Bool, true,
  false, not, ◌&&◌, ◌||◌, none, some, ◌==◌, if◌then◌else◌, update, Bool-cases, ==→eq, ==→ne, tests,
}
use cmpt.Proc.{Proc, Table, unused, zombie, nproc, is_zombie, is_slot, sleep}
use cmpt.Proc.Services.{Services, Kernel}
use cmpt.Proc.Life.{Scan, dead, alive, scan, wait, WaitEnd, reaped, childless, asleep}
use cmpt.Proc.Life.Passed.{
  is_slot→some, is_zombie→zombie, some→is_slot, zombie→is_zombie, true-ne_false,
}

abbrev pub IsChild : ℕ → Proc → Type 0
IsChild me p = p.parent ≡ some me

-- What the scan of k slots from i on says of the table.
pub data Scanned (me k i : ℕ) (t : Table) (had : Bool) : Scan → Type 0 where
  is_dead :
      {j : ℕ} → j < i + k → IsChild me (t j) → (t j).state ≡ zombie → Scanned me k i t had (dead j)
  all_alive :
      {h : Bool}
      → ((m : ℕ) → i ≤ m → m < i + k → IsChild me (t m) → (t m).state ≢ zombie)
      → (h ≡ true → (had ≡ true) ⊎ ((m : ℕ) × (m < i + k) × IsChild me (t m)))
      → (h ≡ false → (had ≡ false) × ((m : ℕ) → i ≤ m → m < i + k → ¬ IsChild me (t m)))
      → Scanned me k i t had (alive h)

widen :
    {me k i : ℕ} {t : Table} {had : Bool} {r : Scan}
    → (child : Bool) → is_slot (t i).parent me ≡ child
    → (child && is_zombie (t i).state) ≡ false
    → Scanned me k (i + 1) t (if child then true else had) r
    → Scanned me (suc k) i t had r
widen child e live (is_dead lt mine z) = is_dead (omega arith) mine z
widen {me} {k} {i} {t} {had} child e live (all_alive {h} spared some_child no_child) =
    all_alive spared' some' none'
  where
    spared' : (m : ℕ) → i ≤ m → m < i + suc k → IsChild me (t m) → (t m).state ≢ zombie
    spared' m le lt mine z = elim (Bool-cases (m == i)) [
      | inl here ↦
          let q = ==→eq m i here in
          let c : child ≡ true =
            sym e ∙ some→is_slot (t i).parent me (ap (λ n. (t n).parent) (sym q) ∙ mine) in
          let d : is_zombie (t i).state ≡ true =
            zombie→is_zombie (t i).state (ap (λ n. (t n).state) (sym q) ∙ z) in
          ground (arith, c, d, live)
      | inr later ↦ spared m (omega (tests, ==→ne m i later)) (omega arith) mine z
    ]

    carry :
        (c : Bool)
        → is_slot (t i).parent me ≡ c
        → ((if c then true else had) ≡ true) ⊎ ((m : ℕ) × (m < i + 1 + k) × IsChild me (t m))
        → (had ≡ true) ⊎ ((m : ℕ) × (m < i + suc k) × IsChild me (t m))
    carry true q _ = inr (i, omega arith, is_slot→some (t i).parent me q)
    carry false q (inl y) = inl y
    carry false q (inr (m, lt, mine)) = inr (m, omega arith, mine)

    childfree :
        (c : Bool)
        → is_slot (t i).parent me ≡ c
        → ((if c then true else had) ≡ false)
          × ((m : ℕ) → i + 1 ≤ m → m < i + 1 + k → ¬ IsChild me (t m))
        → (had ≡ false) × ((m : ℕ) → i ≤ m → m < i + suc k → ¬ IsChild me (t m))
    childfree true q (y, _) = absurd (true-ne_false y)
    childfree false q (y, rest) = (
      y,
      λ m le lt mine. elim (Bool-cases (m == i)) [
        | inl here ↦ true-ne_false (
            sym
              (some→is_slot (t i).parent me (ap (λ n. (t n).parent) (sym (==→eq m i here)) ∙ mine))
            ∙ q)
        | inr later ↦ rest m (omega (tests, ==→ne m i later)) (omega arith) mine
      ],
    )

    some' : h ≡ true → (had ≡ true) ⊎ ((m : ℕ) × (m < i + suc k) × IsChild me (t m))
    some' y = carry child e (some_child y)

    none' : h ≡ false → (had ≡ false) × ((m : ℕ) → i ≤ m → m < i + suc k → ¬ IsChild me (t m))
    none' y = childfree child e (no_child y)

scan-Scanned : (me k i : ℕ) (had : Bool) (t : Table) → Scanned me k i t had (scan me k i had t)
unfolding scan
scan-Scanned me zero i had t =
    all_alive (λ m le lt. absurd (omega arith)) (λ y. inl y)
      (λ y. (y, λ m le lt. absurd (omega arith)))
scan-Scanned me (suc k) i had t =
    elim (Bool-cases (is_slot (t i).parent me && is_zombie (t i).state)) [
      | inl both ↦
          let (mine, z) = split (is_slot (t i).parent me) (is_zombie (t i).state) both in
          rw both (
            is_dead (omega arith) (is_slot→some (t i).parent me mine)
              (is_zombie→zombie (t i).state z))
      | inr live ↦ rw live (
          widen (is_slot (t i).parent me) refl live
            (scan-Scanned me k (i + 1) (if is_slot (t i).parent me then true else had) t))
    ]
  where
    split : (a b : Bool) → (a && b) ≡ true → (a ≡ true) × (b ≡ true)
    split a b e = ground (arith, e)

-- What wait leaves: the table, the pid that it returns.
module _ {R : Type 0} (v : Services R) where
  pub data Waited (me : ℕ) (k k' : Kernel R) : WaitEnd → Type 0 where
    frees_child :
        {j : ℕ}
        → j < nproc
        → IsChild me (k.table j)
        → (k.table j).state ≡ zombie
        → k' ≡ record k {
          table = update k.table j (record (k.table j) {
            kstack = 0;
            state = unused;
            pid = 0;
            parent = none;
            name = update (k.table j).name 0 0;
            killed = false;
          });
          rest = v.freevm (k.table j).pgdir (v.kfree (k.table j).kstack k.rest);
        }
        → Waited me k k' (reaped (k.table j).pid)
    fails :
        ((m : ℕ) → m < nproc → IsChild me (k.table m) → (k.table m).state ≢ zombie)
        → ((m : ℕ) → m < nproc → ¬ IsChild me (k.table m)) ⊎ ((k.table me).killed ≡ true)
        → k' ≡ k
        → Waited me k k' childless
    sleeps :
        ((m : ℕ) → m < nproc → IsChild me (k.table m) → (k.table m).state ≢ zombie)
        → ((m : ℕ) × (m < nproc) × IsChild me (k.table m))
        → (k.table me).killed ≡ false
        → k' ≡ record k { table = sleep me (v.slot_addr me) k.table }
        → Waited me k k' asleep

  -- A run of wait: it returns the pid of a zombie child, gives back its stack and then its memory,
  -- makes its slot UNUSED with no stack, pid, parent, name and kill, and changes nothing else; or it fails, without a change, when no child is a zombie and there is no child or the
  -- process is killed; or it goes to sleep on its own slot, with a child and none of them a zombie.
  pub wait-Waited : (me : ℕ) (k : Kernel R) → Waited me k (wait v me k).0 (wait v me k).1
  unfolding wait
  wait-Waited me k = of (scan me nproc 0 false k.table) refl (scan-Scanned me nproc 0 false k.table)
    where
      of :
          (r : Scan)
          → scan me nproc 0 false k.table ≡ r
          → Scanned me nproc 0 k.table false r
          → Waited me k (wait v me k).0 (wait v me k).1
      of (dead j) e (is_dead lt mine z) = rw (wait, e) (frees_child lt mine z refl)
      of (alive h) e (all_alive no_zombie some_child no_child) =
          elim (Bool-cases (not h || (k.table me).killed)) [
            | inl gives_up ↦ rw (wait, e, gives_up) (fails none_dead (why h gives_up no_child) refl)
            | inr waits ↦
                rw (wait, e, waits) (sleeps none_dead (who h waits some_child) (lives h waits) refl)
          ]
        where
          none_dead : (m : ℕ) → m < nproc → IsChild me (k.table m) → (k.table m).state ≢ zombie
          none_dead m lt mine z = no_zombie m (omega arith) lt mine z

          why :
              (c : Bool)
              → (not c || (k.table me).killed) ≡ true
              → (c ≡ false
                  → (false ≡ false) × ((m : ℕ) → 0 ≤ m → m < nproc → ¬ IsChild me (k.table m)))
              → ((m : ℕ) → m < nproc → ¬ IsChild me (k.table m)) ⊎ ((k.table me).killed ≡ true)
          why false q f = inl (λ m lt. (f refl).1 m (omega arith) lt)
          why true q f = inr q

          who :
              (c : Bool)
              → (not c || (k.table me).killed) ≡ false
              → (c ≡ true → (false ≡ true) ⊎ ((m : ℕ) × (m < nproc) × IsChild me (k.table m)))
              → (m : ℕ) × (m < nproc) × IsChild me (k.table m)
          who false q f = absurd (true-ne_false q)
          who true q f = elim (f refl) [ inl y ↦ absurd (true-ne_false (sym y)) | inr x ↦ x ]

          lives : (c : Bool) → (not c || (k.table me).killed) ≡ false → (k.table me).killed ≡ false
          lives false q = absurd (true-ne_false q)
          lives true q = q
