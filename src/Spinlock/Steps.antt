-- ===== src/Spinlock/Steps.antt =====
-- Each step keeps the agreement.
use cmpt.Prelude.{
  ℕ, ◌+◌, ◌-◌, ◌<◌, ◌≡◌, ◌≢◌, refl, ◌∙◌, sym, ap, subst, arith, Bool, true, false, ◌&&◌, some, ◌==◌,
  if◌then◌else◌, update, Bool-cases, inl, inr, ==→eq, eq→==, ne→==,
}
use cmpt.Spinlock.{
  Pc, outside, looks_locked, looks_cpu, spins, signs, inside, rechecks_locked, rechecks_cpu, clears,
  unlocks, leaves, panics, Cpu, State, pushcli, popcli, leave, set_cpu, step, sets, happen,
}
use cmpt.Spinlock.Agreement.{
  owns, named, is_outside, panicked, Exclusive, move, stay, others, at, false_true, true_false,
  named-owns,
}

-- A processor behind its popcli
abbrev left : Cpu → Cpu
left x = record x { pc = outside; interrupts = (x.ncli - 1 == 0) && x.intena; ncli = x.ncli - 1 }

leave_masked : (x : Cpu) → 0 < x.ncli → x.interrupts ≡ false → leave x ≡ left x
unfolding popcli
leave_masked x more off =
    let e : popcli x
        ≡ some (record x { ncli = x.ncli - 1; interrupts = (x.ncli - 1 == 0) && x.intena }) =
      rw (popcli, off, ne→== x.ncli 0 (omega arith)) refl in
    rw (leave, e) refl

module _ (s : State) (c : ℕ) (i : Exclusive s) where
  -- A masked processor that does not own the lock goes on to p.
  goes :
      (p q : Pc)
      → (s.cpus c).pc ≡ q
      → is_outside q ≡ false
      → panicked p ≡ false
      → owns p ≡ owns q
      → named p ≡ named q
      → Exclusive (set_cpu c (record (s.cpus c) { pc = p }) s)
  goes p q e out well same same' =
      let a = i.agrees c in
      let more : 0 < (s.cpus c).ncli = a.masked (ap is_outside e ∙ out) in
      stay s c (record (s.cpus c) { pc = p }) i
        (at s.lock c (s.cpus c) p more (a.quiet more) well
          (λ o. a.locked (ap owns e ∙ sym same ∙ o)) (λ o. a.signed (ap named e ∙ sym same' ∙ o))
          (λ o. a.unsigned (ap named e ∙ sym same' ∙ o)))
        (λ o. ap owns e ∙ sym same ∙ o)

  -- No other processor owns the lock of an owner.
  single : owns (s.cpus c).pc ≡ true → (d : ℕ) → d ≢ c → owns (s.cpus d).pc ≡ true → ⊥
  single o d ne o' = ne (i.alone d c o' o)

  -- A processor without the lock is not its signer.
  foreign : (d : ℕ) → named (s.cpus d).pc ≡ false → s.lock.cpu ≢ d + 1
  foreign d = (i.agrees d).unsigned

  -- After a read of lk->locked
  branch :
      (p q : Pc) (b : Bool)
      → s.lock.locked ≡ b
      → Exclusive (set_cpu c (record (s.cpus c) { pc = if b then p else q }) s)
      → Exclusive (set_cpu c (record (s.cpus c) { pc = if s.lock.locked then p else q }) s)
  branch p q b e =
      subst (λ x. Exclusive (set_cpu c (record (s.cpus c) { pc = if x then p else q }) s)) (sym e)

  -- What the xchg of acquire makes of the state
  taken : Bool → State
  taken b = if b then s else record {
    lock = record s.lock { locked = true };
    cpus = update s.cpus c (record (s.cpus c) { pc = signs });
  }

  pub step-Exclusive : (q : Pc) → (s.cpus c).pc ≡ q → Exclusive (step c s)
  unfolding step pushcli popcli taken owns named is_outside panicked
  step-Exclusive outside e =
      let a = i.agrees c in
      rw (step, e)
        (stay s c _ i
          (at s.lock c (pushcli (s.cpus c)) looks_locked (omega arith) refl refl false_true
            false_true (λ _. a.unsigned (ap named e)))
          false_true)
  step-Exclusive looks_locked e = elim (Bool-cases s.lock.locked) [
    | inl l ↦
        rw (step, e)
          (branch looks_cpu spins true l (goes looks_cpu looks_locked e refl refl refl refl))
    | inr l ↦
        rw (step, e)
          (branch looks_cpu spins false l (goes spins looks_locked e refl refl refl refl))
  ]
  step-Exclusive looks_cpu e =
      let ne : s.lock.cpu ≢ c + 1 = foreign c (ap named e) in
      rw (step, e, ne→== s.lock.cpu (c + 1) ne) (goes spins looks_cpu e refl refl refl refl)
  step-Exclusive spins e = elim (Bool-cases s.lock.locked) [
    | inl l ↦ rw (step, e) (subst (λ b. Exclusive (taken b)) (sym l) i)
    | inr l ↦
        let a = i.agrees c in
        let more : 0 < (s.cpus c).ncli = a.masked (ap is_outside e) in
        let free : (d : ℕ) → owns (s.cpus d).pc ≡ true → ⊥ =
          λ d o. false_true (sym l ∙ (i.agrees d).locked o) in
        rw (step, e)
          (subst (λ b. Exclusive (taken b)) (sym l)
            (move s c (record s.lock { locked = true }) (record (s.cpus c) { pc = signs }) i
              (at (record s.lock { locked = true }) c (s.cpus c) signs more (a.quiet more) refl
                (λ _. refl) false_true (λ _. a.unsigned (ap named e)))
              (λ d ne.
                others (record s.lock { locked = true }) d (s.cpus d) (i.agrees d) (λ _. refl)
                  (i.agrees d).signed (i.agrees d).unsigned)
              (λ _ d ne o. free d o)))
  ]
  step-Exclusive signs e =
      let a = i.agrees c in
      let more : 0 < (s.cpus c).ncli = a.masked (ap is_outside e) in
      let alone = single (ap owns e) in
      rw (step, e)
        (move s c (record s.lock { cpu = c + 1 }) (record (s.cpus c) { pc = inside }) i
          (at (record s.lock { cpu = c + 1 }) c (s.cpus c) inside more (a.quiet more) refl
            (λ _. a.locked (ap owns e)) (λ _. refl) true_false)
          (λ d ne.
            others (record s.lock { cpu = c + 1 }) d (s.cpus d) (i.agrees d) (i.agrees d).locked
              (λ n. absurd (alone d ne (named-owns (s.cpus d).pc n)))
              (λ n q. ne (omega (arith, q))))
          (λ _. alone))
  step-Exclusive inside e = rw (step, e) (goes rechecks_locked inside e refl refl refl refl)
  step-Exclusive rechecks_locked e =
      let l : s.lock.locked ≡ true = (i.agrees c).locked (ap owns e) in
      rw (step, e)
        (branch rechecks_cpu panics true l
          (goes rechecks_cpu rechecks_locked e refl refl refl refl))
  step-Exclusive rechecks_cpu e =
      let q : s.lock.cpu ≡ c + 1 = (i.agrees c).signed (ap named e) in
      rw (step, e, eq→== s.lock.cpu (c + 1) q) (goes clears rechecks_cpu e refl refl refl refl)
  step-Exclusive clears e =
      let a = i.agrees c in
      let more : 0 < (s.cpus c).ncli = a.masked (ap is_outside e) in
      let alone = single (ap owns e) in
      rw (step, e)
        (move s c (record s.lock { cpu = 0 }) (record (s.cpus c) { pc = unlocks }) i
          (at (record s.lock { cpu = 0 }) c (s.cpus c) unlocks more (a.quiet more) refl
            (λ _. a.locked (ap owns e)) false_true (λ _. omega arith))
          (λ d ne.
            others (record s.lock { cpu = 0 }) d (s.cpus d) (i.agrees d) (i.agrees d).locked
              (λ n. absurd (alone d ne (named-owns (s.cpus d).pc n))) (λ n. omega arith))
          (λ _. alone))
  step-Exclusive unlocks e =
      let a = i.agrees c in
      let more : 0 < (s.cpus c).ncli = a.masked (ap is_outside e) in
      let alone = single (ap owns e) in
      rw (step, e)
        (move s c (record s.lock { locked = false }) (record (s.cpus c) { pc = leaves }) i
          (at (record s.lock { locked = false }) c (s.cpus c) leaves more (a.quiet more) refl
            false_true false_true (λ _. a.unsigned (ap named e)))
          (λ d ne.
            others (record s.lock { locked = false }) d (s.cpus d) (i.agrees d)
              (λ o. absurd (alone d ne o)) (i.agrees d).signed (i.agrees d).unsigned)
          false_true)
  step-Exclusive leaves e =
      let a = i.agrees c in
      let more : 0 < (s.cpus c).ncli = a.masked (ap is_outside e) in
      rw (step, e, leave_masked (s.cpus c) more (a.quiet more))
        (stay s c (left (s.cpus c)) i
          (record {
            locked = false_true;
            signed = false_true;
            unsigned = λ _. a.unsigned (ap named e);
            masked = true_false;
            quiet = λ m. rw (ne→== ((s.cpus c).ncli - 1) 0 (omega arith)) refl;
            well = refl;
          })
          false_true)
  step-Exclusive panics e = false_true (sym (i.agrees c).well ∙ ap panicked e)

  pub sets-Exclusive : (b : Bool) (q : Pc) → (s.cpus c).pc ≡ q → Exclusive (happen (sets c b) s)
  unfolding happen owns named is_outside panicked
  sets-Exclusive b outside e = elim (Bool-cases ((s.cpus c).ncli == 0)) [
    | inl z ↦
        let a = i.agrees c in
        rw (happen, e, z)
          (stay s c (record (s.cpus c) { interrupts = b }) i
            (record {
              locked = a.locked;
              signed = a.signed;
              unsigned = a.unsigned;
              masked = a.masked;
              quiet = λ m. absurd (omega (arith, m, ==→eq (s.cpus c).ncli 0 z));
              well = a.well;
            })
            (λ o. o))
    | inr z ↦ rw (happen, e, z) i
  ]
  sets-Exclusive b looks_locked e = rw (happen, e) i
  sets-Exclusive b looks_cpu e = rw (happen, e) i
  sets-Exclusive b spins e = rw (happen, e) i
  sets-Exclusive b signs e = rw (happen, e) i
  sets-Exclusive b inside e = rw (happen, e) i
  sets-Exclusive b rechecks_locked e = rw (happen, e) i
  sets-Exclusive b rechecks_cpu e = rw (happen, e) i
  sets-Exclusive b clears e = rw (happen, e) i
  sets-Exclusive b unlocks e = rw (happen, e) i
  sets-Exclusive b leaves e = rw (happen, e) i
  sets-Exclusive b panics e = rw (happen, e) i
