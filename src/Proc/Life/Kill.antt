-- ===== src/Proc/Life/Kill.antt =====
-- kill and the slots that hold no process.
use cmpt.Prelude.{
  ℕ, ◌+◌, ◌%◌, ◌^◌, ◌<◌, ◌≡◌, ◌≢◌, inl, inr, refl, ◌∙◌, sym, ap, subst, arith, Bool, true, false,
  Option, some, ◌==◌, ltb, if◌then◌else◌, update, update-ne, update_self, Bool-cases, eq→==, ne→==,
  tests,
}
use cmpt.Proc.{
  Proc, Table, unused, embryo, runnable, nproc, is_unused, is_sleeping, kill, find_slot,
}
use cmpt.Proc.Loops.{Search, found, missing, find_slot-Search}
use cmpt.Proc.Services.{Services, Kernel}
use cmpt.Proc.Life.{allocproc}
use cmpt.Proc.Life.Fork.{allocproc_claimed, born, is_unused→unused}
use cmpt.Proc.Life.Passed.{true-ne_false}

Search-first :
    {test : Proc → Bool} {t : Table} {o : Option ℕ} (i k : ℕ)
    → Search 0 k test t o
    → i < k
    → test (t i) ≡ true
    → ((m : ℕ) → m < i → test (t m) ≡ false)
    → o ≡ some i
Search-first {test} {t} i k (found {j} le lt pass first) li here before =
    elim (Bool-cases (ltb j i)) [
      | inl less ↦ absurd (true-ne_false (sym pass ∙ before j (omega tests)))
      | inr more ↦ elim (Bool-cases (ltb i j)) [
        | inl less ↦ absurd (true-ne_false (sym here ∙ first i (omega arith) (omega tests)))
        | inr same ↦ ap some (omega tests)
      ]
    ]
Search-first i k (missing all) li here before =
    absurd (true-ne_false (sym here ∙ all i (omega arith) (omega arith)))

-- what kill makes of the slot that it finds
abbrev victim : Proc → Proc
victim p = record p { state = if is_sleeping p.state then runnable else p.state; killed = true }

pub kill_at :
    (pid i : ℕ) (t : Table)
    → i < nproc
    → (t i).pid ≡ pid
    → ((m : ℕ) → m < i → (t m).pid ≢ pid)
    → kill pid t ≡ (update t i (victim (t i)), true)
unfolding kill
kill_at pid i t lt mine before =
    let hit : find_slot nproc 0 (λ p. p.pid == pid) t ≡ some i =
      Search-first i nproc (find_slot-Search nproc 0 (λ p. p.pid == pid) t) lt
        (eq→== (t i).pid pid mine) (λ m l. ne→== (t m).pid pid (before m l)) in
    rw (kill, hit) refl

allocproc_at :
    {R : Type 0} (v : Services R) (i : ℕ) (k : Kernel R)
    → i < nproc
    → (k.table i).state ≡ unused
    → ((m : ℕ) → m < i → (k.table m).state ≢ unused)
    → (v.kalloc k.rest).0 ≢ 0
    → allocproc v k ≡ (
      some i,
      record {
        table = update k.table i (born embryo k.nextpid (v.kalloc k.rest).0 (k.table i));
        nextpid = (k.nextpid + 1) % 2 ^ 32;
        rest = (v.kalloc k.rest).1;
      },
    )
allocproc_at v i k lt idle busy page =
    let hit : find_slot nproc 0 (λ p. is_unused p.state) k.table ≡ some i =
      Search-first i nproc (find_slot-Search nproc 0 (λ p. is_unused p.state) k.table) lt
        (ap is_unused idle) (λ m l. in_use m (busy m l)) in
    allocproc_claimed v i k hit ∙ (rw (ne→== (v.kalloc k.rest).0 0 page) refl)
  where
    in_use : (m : ℕ) → (k.table m).state ≢ unused → is_unused (k.table m).state ≡ false
    in_use m ne = elim (Bool-cases (is_unused (k.table m).state)) [
      | inl e ↦ absurd (ne (is_unused→unused (k.table m).state e))
      | inr e ↦ e
    ]

-- kill does not look at the state of the slot. Given the pid that the first unused slot holds, 0
-- included, when no earlier slot has it, kill returns 0 and marks that slot; and if allocproc then
-- gets a page, it takes the slot and the new process is born killed.
pub kill_unborn :
    {R : Type 0} (v : Services R) (pid i : ℕ) (k : Kernel R)
    → i < nproc
    → (k.table i).pid ≡ pid
    → ((m : ℕ) → m < i → (k.table m).pid ≢ pid)
    → (k.table i).state ≡ unused
    → ((m : ℕ) → m < i → (k.table m).state ≢ unused)
    → (v.kalloc k.rest).0 ≢ 0
    → ((kill pid k.table).1 ≡ true)
      × ((allocproc v (record k { table = (kill pid k.table).0 })).0 ≡ some i)
      × (((allocproc v (record k { table = (kill pid k.table).0 })).1.table i).killed ≡ true)
kill_unborn {R} v pid i k lt mine before idle busy page =
    let got =
      allocproc_at v i (record k { table = marked_table }) lt
        (ap (λ (p : Proc). p.state) slot ∙ ap (λ s. if is_sleeping s then runnable else s) idle)
        (λ m l e. busy m l (
          sym (
            ap (λ (p : Proc). p.state)
              (update-ne k.table i (victim (k.table i)) m (λ x. omega arith)))
          ∙ e))
        page in
    subst (λ (u : Table × Bool). Outcome u.0 u.1) (sym (kill_at pid i k.table lt mine before))
      (
        refl,
        ap (λ (x : Option ℕ × Kernel R). x.0) got,
        ap (λ (x : Option ℕ × Kernel R). (x.1.table i).killed) got ∙ marked,
      )
  where
    marked_table : Table
    marked_table = update k.table i (victim (k.table i))

    Outcome : Table → Bool → Type 0
    Outcome t b =
        (b ≡ true)
        × ((allocproc v (record k { table = t })).0 ≡ some i)
        × (((allocproc v (record k { table = t })).1.table i).killed ≡ true)

    slot : marked_table i ≡ victim (k.table i)
    slot = update_self k.table i (victim (k.table i)) i refl

    marked :
        (update marked_table i
          (born embryo k.nextpid (v.kalloc k.rest).0 (marked_table i))
          i).killed
        ≡ true
    marked =
        ap (λ (p : Proc). p.killed)
          (update_self marked_table i (born embryo k.nextpid (v.kalloc k.rest).0 (marked_table i)) i
            refl)
        ∙ ap (λ (p : Proc). p.killed) slot
