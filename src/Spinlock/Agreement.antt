-- ===== src/Spinlock/Agreement.antt =====
-- How the processors and the lock agree, and what a step of one processor has to keep.
use cmpt.Prelude.{
  ℕ, ◌+◌, ◌<◌, ◌≡◌, ◌≢◌, refl, ◌∙◌, sym, ap, subst, arith, Bool, true, false, ◌==◌, update,
  update-ne, update_self, Bool-cases, inl, inr, ==→eq, ==→ne,
}
use cmpt.Spinlock.{
  Pc, outside, looks_locked, looks_cpu, spins, signs, inside, rechecks_locked, rechecks_cpu, clears,
  unlocks, leaves, panics, Cpu, Spinlock, State, set_cpu,
}

-- From the xchg of acquire to that of release
unfoldable pub owns : Pc → Bool
owns signs = true
owns inside = true
owns rechecks_locked = true
owns rechecks_cpu = true
owns clears = true
owns unlocks = true
owns _ = false

-- While the lock's cpu field names the processor
unfoldable pub named : Pc → Bool
named inside = true
named rechecks_locked = true
named rechecks_cpu = true
named clears = true
named _ = false

unfoldable pub is_outside : Pc → Bool
is_outside outside = true
is_outside _ = false

unfoldable pub panicked : Pc → Bool
panicked panics = true
panicked _ = false

-- Processor c agrees with the lock.
pub record Agrees (l : Spinlock) (c : ℕ) (x : Cpu) : Type 0 where
  pub locked : owns x.pc ≡ true → l.locked ≡ true
  pub signed : named x.pc ≡ true → l.cpu ≡ c + 1
  pub unsigned : named x.pc ≡ false → l.cpu ≢ c + 1
  pub masked : is_outside x.pc ≡ false → 0 < x.ncli
  pub quiet : 0 < x.ncli → x.interrupts ≡ false
  pub well : panicked x.pc ≡ false

pub record Exclusive (s : State) : Type 0 where
  pub agrees : (c : ℕ) → Agrees s.lock c (s.cpus c)
  pub alone : (c d : ℕ) → owns (s.cpus c).pc ≡ true → owns (s.cpus d).pc ≡ true → c ≡ d

abbrev owns_of : Cpu → Bool
owns_of y = owns y.pc

-- Processor c becomes x, and the lock l.
pub move :
    (s : State) (c : ℕ) (l : Spinlock) (x : Cpu)
    → Exclusive s
    → Agrees l c x
    → ((d : ℕ) → d ≢ c → Agrees l d (s.cpus d))
    → (owns x.pc ≡ true → (d : ℕ) → d ≢ c → owns (s.cpus d).pc ≡ true → ⊥)
    → Exclusive (record { lock = l; cpus = update s.cpus c x })
move s c l x i ok rest single = record {
  agrees = λ d. elim (Bool-cases (d == c)) [
    | inl e ↦ rw e (subst (λ n. Agrees l n x) (sym (==→eq d c e)) ok)
    | inr e ↦ rw e (rest d (==→ne d c e))
  ];
  alone = λ d d' o o'. elim (Bool-cases (d == c)) [
    | inl e ↦ elim (Bool-cases (d' == c)) [
      | inl e' ↦ ==→eq d c e ∙ sym (==→eq d' c e')
      | inr e' ↦ absurd (
          single (sym (ap owns_of (update_self s.cpus c x d (==→eq d c e))) ∙ o) d' (==→ne d' c e')
            (sym (ap owns_of (update-ne s.cpus c x d' (==→ne d' c e'))) ∙ o'))
    ]
    | inr e ↦ elim (Bool-cases (d' == c)) [
      | inl e' ↦ absurd (
          single (sym (ap owns_of (update_self s.cpus c x d' (==→eq d' c e'))) ∙ o') d (==→ne d c e)
            (sym (ap owns_of (update-ne s.cpus c x d (==→ne d c e))) ∙ o))
      | inr e' ↦
          i.alone d d' (sym (ap owns_of (update-ne s.cpus c x d (==→ne d c e))) ∙ o)
            (sym (ap owns_of (update-ne s.cpus c x d' (==→ne d' c e'))) ∙ o')
    ]
  ];
}

-- A step that leaves the lock, and does not take it
pub stay :
    (s : State) (c : ℕ) (x : Cpu)
    → Exclusive s
    → Agrees s.lock c x
    → (owns x.pc ≡ true → owns (s.cpus c).pc ≡ true)
    → Exclusive (set_cpu c x s)
stay s c x i ok kept =
    move s c s.lock x i ok (λ d _. i.agrees d) (λ o d ne o'. ne (i.alone d c o' (kept o)))

-- Another processor is not concerned by a change of the lock.
pub others :
    {l : Spinlock} (k : Spinlock) (d : ℕ) (x : Cpu)
    → Agrees l d x
    → (owns x.pc ≡ true → k.locked ≡ true)
    → (named x.pc ≡ true → k.cpu ≡ d + 1)
    → (named x.pc ≡ false → k.cpu ≢ d + 1)
    → Agrees k d x
others k d x a locked signed unsigned = record {
  locked = locked;
  signed = signed;
  unsigned = unsigned;
  masked = a.masked;
  quiet = a.quiet;
  well = a.well;
}

-- A processor at p, masked
pub at :
    (l : Spinlock) (c : ℕ) (x : Cpu) (p : Pc)
    → 0 < x.ncli
    → x.interrupts ≡ false
    → panicked p ≡ false
    → (owns p ≡ true → l.locked ≡ true)
    → (named p ≡ true → l.cpu ≡ c + 1)
    → (named p ≡ false → l.cpu ≢ c + 1)
    → Agrees l c (record x { pc = p })
at l c x p more off well locked signed unsigned = record {
  locked = locked;
  signed = signed;
  unsigned = unsigned;
  masked = λ _. more;
  quiet = λ _. off;
  well = well;
}

pub false_true : {A : Type 0} → false ≡ true → A
false_true e = absurd (ground (arith, e))

pub true_false : {A : Type 0} → true ≡ false → A
true_false e = absurd (ground (arith, e))

pub named-owns : (p : Pc) → named p ≡ true → owns p ≡ true
unfolding named owns
named-owns inside e = refl
named-owns rechecks_locked e = refl
named-owns rechecks_cpu e = refl
named-owns clears e = refl
named-owns outside e = e
named-owns looks_locked e = e
named-owns looks_cpu e = e
named-owns spins e = e
named-owns signs e = refl
named-owns unlocks e = refl
named-owns leaves e = e
named-owns panics e = e
