-- ===== src/Spinlock/Exclusion.antt =====
-- Mutual exclusion, and that acquire and release do not panic.
use cmpt.Prelude.{ℕ, ◌<◌, ◌≡◌, refl, ◌∙◌, sym, ap, arith, true, false, List, [], ◌∷◌}
use cmpt.Spinlock.{
  Pc, outside, looks_locked, looks_cpu, spins, signs, inside, rechecks_locked, rechecks_cpu, clears,
  unlocks, leaves, panics, Spinlock, State, initlock, Event, runs, sets, happen, history,
}
use cmpt.Spinlock.Agreement.{owns, named, is_outside, panicked, Exclusive, false_true, true_false}
use cmpt.Spinlock.Steps.{step-Exclusive, sets-Exclusive}

happen-Exclusive : (e : Event) (s : State) → Exclusive s → Exclusive (happen e s)
unfolding happen
happen-Exclusive (runs c) s i = step-Exclusive s c i (s.cpus c).pc refl
happen-Exclusive (sets c b) s i = sets-Exclusive s c i b (s.cpus c).pc refl

history-Exclusive : (es : List Event) (s : State) → Exclusive s → Exclusive (history es s)
unfolding history
history-Exclusive [] s i = i
history-Exclusive (e ∷ es) s i = history-Exclusive es (happen e s) (happen-Exclusive e s i)

owns-is_outside : (p : Pc) → owns p ≡ true → is_outside p ≡ false
unfolding owns is_outside
owns-is_outside outside o = sym o
owns-is_outside looks_locked o = refl
owns-is_outside looks_cpu o = refl
owns-is_outside spins o = refl
owns-is_outside signs o = refl
owns-is_outside inside o = refl
owns-is_outside rechecks_locked o = refl
owns-is_outside rechecks_cpu o = refl
owns-is_outside clears o = refl
owns-is_outside unlocks o = refl
owns-is_outside leaves o = refl
owns-is_outside panics o = refl

-- The lock is free and no processor is at it; where ncli is not 0, for other locks, interrupts are
-- off.
pub record Fresh (s : State) : Type 0 where
  pub free : s.lock ≡ initlock
  pub idle : (c : ℕ) → (s.cpus c).pc ≡ outside
  pub quiet : (c : ℕ) → 0 < (s.cpus c).ncli → (s.cpus c).interrupts ≡ false

Fresh-Exclusive : (s : State) → Fresh s → Exclusive s
unfolding owns named is_outside panicked
Fresh-Exclusive s f = record {
  agrees = λ c. record {
    locked = λ o. false_true (sym (ap owns (f.idle c)) ∙ o);
    signed = λ n. false_true (sym (ap named (f.idle c)) ∙ n);
    unsigned = λ n q. absurd (omega (arith, q, ap (λ (l : Spinlock). l.cpu) f.free));
    masked = λ o. true_false (sym (ap is_outside (f.idle c)) ∙ o);
    quiet = f.quiet c;
    well = ap panicked (f.idle c);
  };
  alone = λ c d o o'. false_true (sym (ap owns (f.idle c)) ∙ o);
}

-- Whatever steps the processors take, and in whatever order: two processors are never both between
-- the xchg of acquire and that of release; a processor that is there has its interrupts off, and
-- the lock shows it as locked; and neither acquire, nor release, nor popcli panics.
pub mutual_exclusion :
    (s : State) (es : List Event)
    → Fresh s
    → ((c d : ℕ)
        → owns ((history es s).cpus c).pc ≡ true
        → owns ((history es s).cpus d).pc ≡ true
        → c ≡ d)
      × ((c : ℕ)
          → owns ((history es s).cpus c).pc ≡ true
          → (((history es s).cpus c).interrupts ≡ false) × ((history es s).lock.locked ≡ true))
      × ((c : ℕ) → panicked ((history es s).cpus c).pc ≡ false)
mutual_exclusion s es f =
    let x = history-Exclusive es s (Fresh-Exclusive s f) in
    (
      x.alone,
      λ c o.
          let a = x.agrees c in
          (a.quiet (a.masked (owns-is_outside ((history es s).cpus c).pc o)), a.locked o),
      λ c. (x.agrees c).well,
    )
