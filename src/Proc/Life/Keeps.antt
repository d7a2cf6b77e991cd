-- ===== src/Proc/Life/Keeps.antt =====
-- Each operation keeps the table in order.
use cmpt.Prelude.{
  ℕ, ◌<◌, ◌≡◌, ◌≢◌, inl, inr, refl, ◌∙◌, sym, ap, subst, arith, true, false, Option, none, some,
  ◌==◌, update, Bool-cases, some_eq,
}
use cmpt.Proc.{
  Proc, Table, ProcState, unused, embryo, sleeping, runnable, running, zombie, nproc, is_sleeping,
  is_zombie, is_slot, is_runnable, is_unused, for_slots, wakeup1, kill, sleep, tidy_up, yield,
  schedule, find_slot,
}
use cmpt.Proc.Loops.{wakeup1_at, Search, found, find_slot-Search}
use cmpt.Proc.Services.{Services, Kernel}
use cmpt.Proc.Life.{claim_slot, give_stack, fork_into, exit_table, wait, WaitEnd, chan_of, abandon}
use cmpt.Proc.Life.Passed.{
  SleepsOn, is_alive, Passed, Passed-trans, true-ne_false, woken-SleepsOn, woken_zombie,
  runnable-ne_sleeping, runnable-ne_zombie,
}
use cmpt.Proc.Life.Exit.{wakeup1-Passed, loop-Passed, loop-wakes}
use cmpt.Proc.Life.Family.{Tended, Tended-update, quiet-Tended, Passed-Tended, none-ne_some}
use cmpt.Proc.Life.Wait.{Waited, frees_child, fails, IsChild, wait-Waited}
use cmpt.Proc.Life.Fork.{is_unused→unused, Forked, undone, forks, fork_into-Forked}

unused-ne_zombie : unused ≢ zombie
unused-ne_zombie e = ground (arith, ap is_zombie e)

unused-ne_sleeping : unused ≢ sleeping
unused-ne_sleeping e = ground (arith, ap is_sleeping e)

zombie-ne_sleeping : zombie ≢ sleeping
zombie-ne_sleeping e = ground (arith, ap is_sleeping e)

sleeping-ne_zombie : sleeping ≢ zombie
sleeping-ne_zombie e = ground (arith, ap is_zombie e)

module _ {R : Type 0} (v : Services R) (init : ℕ) (lt_init : init < nproc) where
  abbrev pub Good : Table → Type 0
  Good t = Tended v.slot_addr init t

  pub wakeup1-Tended : (chan : ℕ) (t : Table) → Good t → Good (wakeup1 chan t)
  wakeup1-Tended chan t d =
      Passed-Tended v.slot_addr init lt_init init t (wakeup1 chan t) d
        (λ j lt. wakeup1-Passed v init init chan j t lt)
        (λ j lt mine _ z s.
          d.tended init j lt_init lt mine z
            ((wakeup1-Passed v init init chan init t lt_init).asleep_before (v.slot_addr init) s))

  -- An unused or embryonic slot is not init's.
  not_init : (t : Table) (i : ℕ) → Good t → is_alive (t i).state ≡ false → i ≢ init
  not_init t i d e f = true-ne_false (sym d.init_alive ∙ ap (λ n. is_alive (t n).state) (sym f) ∙ e)

  -- A slot that is neither asleep nor a zombie takes the place of one that is not alive.
  fresh-Tended :
      (t : Table) (i : ℕ) (q : Proc)
      → Good t
      → is_alive (t i).state ≡ false
      → q.parent ≢ some i
      → q.state ≢ zombie
      → q.state ≢ sleeping
      → Good (update t i q)
  fresh-Tended t i q d idle self live awake =
      Tended-update v.slot_addr init lt_init t i q d (λ e. absurd (not_init t i d idle e)) self
        (λ _ _ _ _ z. absurd (live z)) (λ s. absurd (awake s.0))

  embryo-ne_zombie : embryo ≢ zombie
  embryo-ne_zombie e = ground (arith, ap is_zombie e)

  embryo-ne_sleeping : embryo ≢ sleeping
  embryo-ne_sleeping e = ground (arith, ap is_sleeping e)

  pub claim_slot-Tended : (k : Kernel R) → Good k.table → Good (claim_slot v k).1.table
  unfolding claim_slot
  claim_slot-Tended k d =
      of (find_slot nproc 0 (λ p. is_unused p.state) k.table) refl
        (find_slot-Search nproc 0 (λ p. is_unused p.state) k.table)
    where
      of :
          (o : Option ℕ)
          → find_slot nproc 0 (λ p. is_unused p.state) k.table ≡ o
          → Search 0 nproc (λ p. is_unused p.state) k.table o
          → Good (claim_slot v k).1.table
      of none e _ = rw (claim_slot, e) d
      of (some i) e (found _ lt pass _) =
          rw (claim_slot, e)
            (fresh-Tended k.table i _ d (ap is_alive (is_unused→unused (k.table i).state pass))
              (d.apart i lt) embryo-ne_zombie embryo-ne_sleeping)

  pub give_stack-Tended :
      (i : ℕ) (k : Kernel R)
      → i < nproc
      → (k.table i).state ≡ embryo
      → Good k.table
      → Good (give_stack v i k).1.table
  unfolding give_stack
  give_stack-Tended i k lt young d = elim (Bool-cases ((v.kalloc k.rest).0 == 0)) [
    | inl out ↦
        rw (give_stack, out)
          (fresh-Tended k.table i _ d (ap is_alive young) (d.apart i lt) unused-ne_zombie
            unused-ne_sleeping)
    | inr page ↦
        rw (give_stack, page)
          (fresh-Tended k.table i _ d (ap is_alive young) (d.apart i lt)
            (λ x. embryo-ne_zombie (sym young ∙ x)) (λ x. embryo-ne_sleeping (sym young ∙ x)))
  ]

  pub fork_into-Tended :
      (me i : ℕ) (k : Kernel R)
      → i < nproc
      → (k.table me).state ≡ running
      → (k.table i).state ≡ embryo
      → Good k.table
      → Good (fork_into v me i k).1.table
  fork_into-Tended me i k lt runs young d = of (fork_into-Forked v me i k)
    where
      of : {o : Option ℕ} {k' : Kernel R} → Forked v me i k k' o → Good k'.table
      of (undone q e st pa _) = subst Good (sym e) (
          fresh-Tended k.table i q d (ap is_alive young) (λ f. d.apart i lt (sym pa ∙ f))
            (λ x. unused-ne_zombie (sym st ∙ x)) (λ x. unused-ne_sleeping (sym st ∙ x)))
      of (forks q e st pa _ _) = subst Good (sym e) (
          fresh-Tended k.table i q d (ap is_alive young)
            (λ f.
              let same : me ≡ i = some_eq (sym pa ∙ f) in
              ground (
                arith,
                ap is_runnable (sym young),
                ap (λ s. is_alive s) (sym runs ∙ ap (λ n. (k.table n).state) same ∙ young),
              ))
            (λ x. runnable-ne_zombie (sym st ∙ x)) (λ x. runnable-ne_sleeping (sym st ∙ x)))

  pub wait-Tended :
      (me : ℕ) (k : Kernel R)
      → me < nproc
      → (k.table me).state ≡ running
      → Good k.table
      → Good (wait v me k).0.table
  unfolding sleep
  wait-Tended me k lt runs d = of (wait-Waited v me k)
    where
      of : {k' : Kernel R} {e : WaitEnd} → Waited v me k k' e → Good k'.table
      of (frees_child {j} lj mine z e) =
          subst (λ (x : Kernel R). Good x.table) (sym e)
            (fresh-Tended k.table j _ d (ap is_alive z) (λ f. none-ne_some j f) unused-ne_zombie
              unused-ne_sleeping)
      of (fails _ _ e) = subst (λ (x : Kernel R). Good x.table) (sym e) d
      of (cmpt.Proc.Life.Wait.sleeps spared _ _ e) =
          subst (λ (x : Kernel R). Good x.table) (sym e) asleep
        where
          asleep : Good (sleep me (v.slot_addr me) k.table)
          asleep =
              Tended-update v.slot_addr init lt_init k.table me _ d
                (λ f. (refl, ap (λ n. (k.table n).parent) f ∙ d.orphan)) (d.apart me lt)
                (λ _ _ _ _ z. absurd (sleeping-ne_zombie z)) (λ _ j lj _ mine. spared j lj mine)

  pub sleep-Tended :
      (me chan : ℕ) (t : Table)
      → me < nproc
      → (t me).state ≡ running
      → chan ≢ v.slot_addr me
      → Good t
      → Good (sleep me chan t)
  unfolding sleep
  sleep-Tended me chan t lt runs other d =
      quiet-Tended v.slot_addr init lt_init t me _ lt d (λ _. refl) (inl refl)
        (λ z. absurd (sleeping-ne_zombie z)) (λ s. absurd (other s.1))

  pub awake-Tended :
      (me : ℕ) (t : Table) (q : Proc)
      → me < nproc
      → is_alive q.state ≡ true
      → q.state ≢ sleeping
      → q.parent ≡ (t me).parent
      → Good t
      → Good (update t me q)
  awake-Tended me t q lt alive awake same d =
      quiet-Tended v.slot_addr init lt_init t me q lt d (λ _. alive) (inl same)
        (λ z. absurd (true-ne_false (sym alive ∙ ap is_alive z))) (λ s. absurd (awake s.0))

  pub kill-Tended : (pid : ℕ) (t : Table) → Good t → Good (kill pid t).0
  unfolding kill
  kill-Tended pid t d =
      of (find_slot nproc 0 (λ p. p.pid == pid) t) refl
        (find_slot-Search nproc 0 (λ p. p.pid == pid) t)
    where
      of :
          (o : Option ℕ)
          → find_slot nproc 0 (λ p. p.pid == pid) t ≡ o
          → Search 0 nproc (λ p. p.pid == pid) t o
          → Good (kill pid t).0
      of none e _ = rw (kill, e) d
      of (some i) e (found _ lt _ _) =
          rw (kill, e)
            (elim (Bool-cases (is_sleeping (t i).state)) [
              | inl s ↦ rw s (awake-Tended i t _ lt refl runnable-ne_sleeping refl d)
              | inr s ↦ rw s (
                  quiet-Tended v.slot_addr init lt_init t i _ lt d (λ a. a) (inl refl) (λ z. z)
                    (λ x. x))
            ])

  pub exit_table-Tended :
      (me : ℕ) (t : Table) → me < nproc → me ≢ init → Good t → Good (exit_table v init me t)
  unfolding exit_table chan_of
  exit_table-Tended me t lt ne d =
      Tended-update v.slot_addr init lt_init u me _ passed (λ e. absurd (ne e)) (passed.apart me lt)
        dies (λ s. absurd (zombie-ne_sleeping s.0))
    where
      w : Table
      w = wakeup1 (chan_of v (t me).parent) t

      u : Table
      u = for_slots nproc 0 (abandon v init me) w

      steps : (j : ℕ) → j < nproc → Passed init me (t j) (u j)
      steps j l =
          Passed-trans init me (wakeup1-Passed v init me (chan_of v (t me).parent) j t l)
            (loop-Passed v init me nproc 0 j w l)

      kept : (j : ℕ) → j < nproc → (t j).state ≡ zombie → w j ≡ t j
      kept j l z =
          wakeup1_at (chan_of v (t me).parent) j t l
          ∙ woken_zombie (chan_of v (t me).parent) (t j) z

      passed : Good u
      passed = Passed-Tended v.slot_addr init lt_init me t u d steps (λ j l mine _ z.
          loop-wakes v init me nproc 0 j init w (omega arith) l l lt_init
            (ap (λ (p : Proc). p.parent) (kept j l z) ∙ mine)
            (ap (λ (p : Proc). p.state) (kept j l z) ∙ z))

      dies :
          (i : ℕ)
          → i < nproc
          → i ≢ me
          → (u me).parent ≡ some i
          → zombie ≡ zombie
          → ¬ SleepsOn (v.slot_addr i) (u i)
      dies i l _ mine _ s = elim (steps me lt).adopted [
        | inr (self, _) ↦ d.apart me lt self
        | inl same ↦
            let on : chan_of v (t me).parent ≡ v.slot_addr i = ap (chan_of v) (sym same ∙ mine) in
            let before : SleepsOn (v.slot_addr i) (w i) =
              (loop-Passed v init me nproc 0 i w l).asleep_before (v.slot_addr i) s in
            woken-SleepsOn (v.slot_addr i) (t i) (
              subst (SleepsOn (v.slot_addr i)) (wakeup1_at (v.slot_addr i) i t l)
                (subst (λ c. SleepsOn (v.slot_addr i) (wakeup1 c t i)) on before))
      ]

  pub schedule-Tended :
      (i : ℕ) (t t' : Table) → i < nproc → schedule i t ≡ some t' → Good t → Good t'
  unfolding schedule
  schedule-Tended i t t' lt e d = elim (Bool-cases (is_runnable (t i).state)) [
    | inl ready ↦
        let q : Proc = record (t i) { state = running } in
        let ran : schedule i t ≡ some (update t i q) = rw ready refl in
        subst Good (some_eq (sym ran ∙ e)) (
          awake-Tended i t q lt refl (λ s. ground (arith, ap is_runnable s, ap is_sleeping s)) refl
            d)
    | inr busy ↦
        let idle : schedule i t ≡ none = rw busy refl in
        absurd (true-ne_false (ap (λ o. elim o [ none ↦ true | some x ↦ false ]) (sym idle ∙ e)))
  ]
