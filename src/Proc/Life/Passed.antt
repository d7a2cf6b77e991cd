-- ===== src/Proc/Life/Passed.antt =====
-- Slots that are woken, or given to init.
use cmpt.Prelude.{
  ℕ, ◌≡◌, ◌≢◌, subst, ◌⊎◌, inl, inr, refl, ◌∙◌, sym, ap, arith, Bool, true, false, ◌&&◌, Option,
  none, some, ◌==◌, if◌then◌else◌, Bool-cases, ==→eq, eq→==,
}
use cmpt.Proc.{
  Proc, ProcState, unused, embryo, sleeping, runnable, running, zombie, is_sleeping, is_zombie,
  is_slot,
}
use cmpt.Proc.Loops.{woken}

abbrev pub SleepsOn : ℕ → Proc → Type 0
SleepsOn chan p = (p.state ≡ sleeping) × (p.chan ≡ chan)

-- the states of a process that may run again
abbrev pub is_alive : ProcState → Bool
is_alive sleeping = true
is_alive runnable = true
is_alive running = true
is_alive _ = false

pub runnable-ne_sleeping : runnable ≢ sleeping
runnable-ne_sleeping e = ground (arith, ap is_sleeping e)

pub runnable-ne_zombie : runnable ≢ zombie
runnable-ne_zombie e = ground (arith, ap is_zombie e)

-- Nobody sleeps on the channel of a wakeup any more.
pub woken-SleepsOn : (chan : ℕ) (p : Proc) → ¬ SleepsOn chan (woken chan p)
woken-SleepsOn chan p s = elim (Bool-cases (is_sleeping p.state && (p.chan == chan))) [
  | inl wakes ↦
      runnable-ne_sleeping
        (subst (λ q. SleepsOn chan (if q then record p { state = runnable } else p)) wakes s).0
  | inr stays ↦
      let (asleep, at) =
        subst (λ q. SleepsOn chan (if q then record p { state = runnable } else p)) stays s in
      ground (arith, asleep, at, stays)
]

-- Slot q comes from slot p by waking it and giving it to init, if at all.
pub record Passed (init me : ℕ) (p q : Proc) : Type 0 where
  pub zombie_before : q.state ≡ zombie → p.state ≡ zombie
  pub asleep_before : (chan : ℕ) → SleepsOn chan q → SleepsOn chan p
  pub alive_after : is_alive p.state ≡ true → is_alive q.state ≡ true
  pub adopted : (q.parent ≡ p.parent) ⊎ ((p.parent ≡ some me) × (q.parent ≡ some init))

module _ (init me : ℕ) where
  pub Passed-refl : (p : Proc) → Passed init me p p
  Passed-refl p = record {
    zombie_before = λ e. e;
    asleep_before = λ c s. s;
    alive_after = λ e. e;
    adopted = inl refl;
  }

  pub Passed-trans : {p q r : Proc} → Passed init me p q → Passed init me q r → Passed init me p r
  Passed-trans a b = record {
    zombie_before = λ e. a.zombie_before (b.zombie_before e);
    asleep_before = λ c s. a.asleep_before c (b.asleep_before c s);
    alive_after = λ e. b.alive_after (a.alive_after e);
    adopted = meet a.adopted b.adopted;
  }
    where
      meet :
          {x y z : Option ℕ}
          → (y ≡ x) ⊎ ((x ≡ some me) × (y ≡ some init))
          → (z ≡ y) ⊎ ((y ≡ some me) × (z ≡ some init))
          → (z ≡ x) ⊎ ((x ≡ some me) × (z ≡ some init))
      meet (inl e) (inl f) = inl (f ∙ e)
      meet (inl e) (inr (f, g)) = inr (sym e ∙ f, g)
      meet (inr (e, f)) (inl g) = inr (e, g ∙ f)
      meet (inr (e, f)) (inr (g, h)) = inr (e, h)

  pub woken-Passed : (chan : ℕ) (p : Proc) → Passed init me p (woken chan p)
  woken-Passed chan p = elim (Bool-cases (is_sleeping p.state && (p.chan == chan))) [
    | inl wakes ↦ rw wakes (record {
      zombie_before = λ e. absurd (runnable-ne_zombie e);
      asleep_before = λ c s. absurd (runnable-ne_sleeping s.0);
      alive_after = λ e. refl;
      adopted = inl refl;
    })
    | inr stays ↦ rw stays (Passed-refl p)
  ]

pub is_slot→some : (o : Option ℕ) (i : ℕ) → is_slot o i ≡ true → o ≡ some i
is_slot→some none i e = ground (arith, e)
is_slot→some (some j) i e = ap some (==→eq j i e)

pub is_zombie→zombie : (s : ProcState) → is_zombie s ≡ true → s ≡ zombie
is_zombie→zombie zombie e = refl
is_zombie→zombie unused e = ground (arith, e)
is_zombie→zombie embryo e = ground (arith, e)
is_zombie→zombie sleeping e = ground (arith, e)
is_zombie→zombie runnable e = ground (arith, e)
is_zombie→zombie running e = ground (arith, e)

pub zombie→is_zombie : (s : ProcState) → s ≡ zombie → is_zombie s ≡ true
zombie→is_zombie s e = ap is_zombie e

pub some→is_slot : (o : Option ℕ) (i : ℕ) → o ≡ some i → is_slot o i ≡ true
some→is_slot o i e = ap (λ q. is_slot q i) e ∙ eq→== i i refl

pub woken_parent : (chan : ℕ) (p : Proc) → (woken chan p).parent ≡ p.parent
woken_parent chan p = elim (Bool-cases (is_sleeping p.state && (p.chan == chan))) [
  | inl wakes ↦ rw wakes refl
  | inr stays ↦ rw stays refl
]

pub true-ne_false : true ≢ false
true-ne_false e = ground (arith, e)

pub woken_zombie : (chan : ℕ) (p : Proc) → p.state ≡ zombie → woken chan p ≡ p
woken_zombie chan p e =
    let stays : (is_sleeping p.state && (p.chan == chan)) ≡ false =
      ap (λ s. is_sleeping s && (p.chan == chan)) e in
    rw stays refl
