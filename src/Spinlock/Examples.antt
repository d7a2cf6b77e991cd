-- ===== src/Spinlock/Examples.antt =====
-- Two processors at one lock.
use cmpt.Prelude.{ℕ, ◌≡◌, refl, arith, true, false, List, [], ◌∷◌}
use cmpt.Spinlock.{outside, spins, inside, Cpu, State, initlock, step, Event, runs, happen, history}
use cmpt.Spinlock.Agreement.{owns, panicked}
use cmpt.Spinlock.Exclusion.{mutual_exclusion}

abbrev idle : Cpu
idle = record { pc = outside; interrupts = true; ncli = 0; intena = false }

abbrev two : State
two = record { lock = initlock; cpus = λ _. idle }

-- Processor 0 enters, and 1 spins behind it.
abbrev race : List Event
race = runs 0 ∷ runs 1 ∷ runs 0 ∷ runs 1 ∷ runs 0 ∷ runs 1 ∷ runs 0 ∷ runs 1 ∷ []

race_spins : ((history race two).cpus 1).pc ≡ spins
unfolding history happen step
race_spins = refl

race_inside : ((history race two).cpus 0).pc ≡ inside
unfolding history happen step
race_inside = refl

mutual_exclusion_example :
    ((c d : ℕ)
      → owns ((history race two).cpus c).pc ≡ true
      → owns ((history race two).cpus d).pc ≡ true
      → c ≡ d)
    × ((c : ℕ)
        → owns ((history race two).cpus c).pc ≡ true
        → (((history race two).cpus c).interrupts ≡ false)
          × ((history race two).lock.locked ≡ true))
    × ((c : ℕ) → panicked ((history race two).cpus c).pc ≡ false)
mutual_exclusion_example =
    mutual_exclusion two race
      (record { free = refl; idle = λ c. refl; quiet = λ c m. absurd (omega (arith, m)) })
