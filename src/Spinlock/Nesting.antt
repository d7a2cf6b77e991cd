-- ===== src/Spinlock/Nesting.antt =====
-- pushcli and popcli are matched: around any nesting of them the interrupt flag comes back.
use cmpt.Prelude.{
  ◌-◌, ◌<◌, ◌≡◌, refl, ◌∙◌, sym, arith, true, false, ◌&&◌, Option, none, some, ◌==◌, Bool-cases,
  inl, inr, ==→eq, ne→==, eq→==, ==→ne,
}
use cmpt.Spinlock.{Cpu, pushcli, popcli}

-- A piece of code, as its calls of pushcli and popcli: none, or one pair around a piece with a
-- piece behind it
pub data Matched : Type 0 where
  nothing : Matched
  pair : Matched → Matched → Matched

pub calls : Matched → Cpu → Option Cpu
calls nothing x = some x
calls (pair body next) x = elim (calls body (pushcli x)) [
  | none ↦ none
  | some y ↦ elim (popcli y) [ none ↦ none | some z ↦ calls next z ]
]

-- What matched calls leave as it was, and the interrupt flag to come back to
pub record Back (x y : Cpu) : Type 0 where
  pub pc : y.pc ≡ x.pc
  pub interrupts : y.interrupts ≡ x.interrupts
  pub ncli : y.ncli ≡ x.ncli
  pub intena : 0 < x.ncli → y.intena ≡ x.intena

-- A matched pair around a body that comes back
around :
    (x y : Cpu)
    → (0 < x.ncli → x.interrupts ≡ false)
    → Back (pushcli x) y
    → (z : Cpu) × (popcli y ≡ some z) × Back x z
unfolding pushcli popcli
around x y quiet b = (
  record y { ncli = y.ncli - 1; interrupts = (y.ncli - 1 == 0) && y.intena },
  rw (popcli, b.interrupts, ne→== y.ncli 0 (omega (arith, b.ncli))) refl,
  record {
    pc = b.pc;
    interrupts = elim (Bool-cases (x.ncli == 0)) [
      | inl e ↦
          let z : (y.ncli - 1 == 0) ≡ true =
            eq→== (y.ncli - 1) 0 (omega (arith, b.ncli, ==→eq x.ncli 0 e)) in
          rw z (b.intena (omega arith) ∙ rw e refl)
      | inr e ↦
          let z : (y.ncli - 1 == 0) ≡ false =
            ne→== (y.ncli - 1) 0 (omega (arith, b.ncli, ==→ne x.ncli 0 e)) in
          rw z (sym (quiet (omega (arith, ==→ne x.ncli 0 e))))
    ];
    ncli = omega (arith, b.ncli);
    intena = λ m. b.intena (omega arith) ∙ rw (ne→== x.ncli 0 (omega arith)) refl;
  },
)

-- Matched calls of pushcli and popcli, however nested, return without a panic, where interrupts
-- are off as long as calls of pushcli are open; ncli and the interrupt flag are then as before,
-- and so is intena where the calls stand inside another pair.
pub calls-Back :
    (m : Matched) (x : Cpu)
    → (0 < x.ncli → x.interrupts ≡ false)
    → (y : Cpu) × (calls m x ≡ some y) × Back x y
unfolding calls pushcli
calls-Back nothing x quiet =
    (x, refl, record { pc = refl; interrupts = refl; ncli = refl; intena = λ _. refl })
calls-Back (pair body next) x quiet =
    let (y, ran, b) = calls-Back body (pushcli x) (λ _. refl) in
    let (z, popped, b') = around x y quiet b in
    let (w, ran', b'') =
      calls-Back next z (λ m. b'.interrupts ∙ quiet (omega (arith, m, b'.ncli))) in
    (
      w,
      rw (calls, ran, popped) ran',
      record {
        pc = b''.pc ∙ b'.pc;
        interrupts = b''.interrupts ∙ b'.interrupts;
        ncli = b''.ncli ∙ b'.ncli;
        intena = λ m. b''.intena (omega (arith, m, b'.ncli)) ∙ b'.intena m;
      },
    )
