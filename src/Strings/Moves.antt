-- ===== src/Strings/Moves.antt =====
-- memmove copies, whether its areas overlap or not.
use cmpt.Prelude.{
  ℕ, zero, suc, ◌+◌, ◌-◌, ◌<◌, ◌≤◌, ◌≡◌, ◌⊎◌, inl, inr, refl, ◌∙◌, sym, ap, arith, true, false,
  ◌&&◌, ◌==◌, ltb, leb, if◌then◌else◌, update, update-ne, update_self, Bool-cases, ==→ne, tests,
}
use cmpt.Strings.{memmove, copy_up, copy_down}

-- memory with n bytes from s on copied to d on, all at once
abbrev pub moved : ℕ → ℕ → ℕ → (ℕ → ℕ) → ℕ → ℕ
moved d s n mem a = if leb d a && ltb a (d + n) then mem (s + (a - d)) else mem a

moved_in :
    (d s n : ℕ) (mem : ℕ → ℕ) (a x : ℕ)
    → d ≤ a
    → a < d + n
    → s + (a - d) ≡ x
    → moved d s n mem a ≡ mem x
moved_in d s n mem a x le lt e =
    let t : (leb d a && ltb a (d + n)) ≡ true = ground arith in rw t (ap mem e)

moved_out : (d s n : ℕ) (mem : ℕ → ℕ) (a : ℕ) → (a < d) ⊎ (d + n ≤ a) → moved d s n mem a ≡ mem a
moved_out d s n mem a out = let t : (leb d a && ltb a (d + n)) ≡ false = ground arith in rw t refl

copy_up-moved :
    (n d s : ℕ) (mem : ℕ → ℕ) (a : ℕ)
    → (d ≤ s) ⊎ (s + n ≤ d)
    → copy_up n d s mem a ≡ moved d s n mem a
unfolding copy_up
copy_up-moved zero d s mem a apart = sym (moved_out d s 0 mem a (omega arith))
copy_up-moved (suc n) d s mem a apart =
    copy_up-moved n (d + 1) (s + 1) (update mem d (mem s)) a (omega arith)
    ∙ elim (Bool-cases (ltb a d)) [
      | inl below ↦
          moved_out (d + 1) (s + 1) n (update mem d (mem s)) a (omega tests)
          ∙ update-ne mem d (mem s) a (omega tests)
          ∙ sym (moved_out d s (suc n) mem a (omega tests))
      | inr above ↦ elim (Bool-cases (a == d)) [
        | inl here ↦
            moved_out (d + 1) (s + 1) n (update mem d (mem s)) a (omega tests)
            ∙ update_self mem d (mem s) a (omega tests)
            ∙ sym (moved_in d s (suc n) mem a s (omega tests) (omega tests) (omega tests))
        | inr past ↦ elim (Bool-cases (ltb a (d + suc n))) [
          | inl inside ↦
              moved_in (d + 1) (s + 1) n (update mem d (mem s)) a (s + (a - d))
                (omega (tests, ==→ne a d past)) (omega (tests, ==→ne a d past))
                (omega (tests, ==→ne a d past))
              ∙ update-ne mem d (mem s) (s + (a - d)) (omega (tests, ==→ne a d past))
              ∙ sym (
                  moved_in d s (suc n) mem a (s + (a - d)) (omega (tests, ==→ne a d past))
                    (omega (tests, ==→ne a d past)) refl)
          | inr outside ↦
              moved_out (d + 1) (s + 1) n (update mem d (mem s)) a (omega (tests, ==→ne a d past))
              ∙ update-ne mem d (mem s) a (omega (tests, ==→ne a d past))
              ∙ sym (moved_out d s (suc n) mem a (omega (tests, ==→ne a d past)))
        ]
      ]
    ]

copy_down-moved :
    (n d s : ℕ) (mem : ℕ → ℕ) (a : ℕ)
    → s < d
    → copy_down n (d + n) (s + n) mem a ≡ moved d s n mem a
unfolding copy_down
copy_down-moved zero d s mem a lt = sym (moved_out d s 0 mem a (omega arith))
copy_down-moved (suc n) d s mem a lt =
    let down : d + suc n - 1 ≡ d + n = omega arith in
    let from : s + suc n - 1 ≡ s + n = omega arith in
    let mem' = update mem (d + n) (mem (s + n)) in
    rw (down, from) (copy_down-moved n d s mem' a lt) ∙ elim (Bool-cases (ltb a d)) [
      | inl below ↦
          moved_out d s n mem' a (omega tests)
          ∙ update-ne mem (d + n) (mem (s + n)) a (omega tests)
          ∙ sym (moved_out d s (suc n) mem a (omega tests))
      | inr above ↦ elim (Bool-cases (ltb a (d + n))) [
        | inl inside ↦
            moved_in d s n mem' a (s + (a - d)) (omega tests) (omega tests) refl
            ∙ update-ne mem (d + n) (mem (s + n)) (s + (a - d)) (omega tests)
            ∙ sym (moved_in d s (suc n) mem a (s + (a - d)) (omega tests) (omega tests) refl)
        | inr past ↦ elim (Bool-cases (a == d + n)) [
          | inl last ↦
              moved_out d s n mem' a (omega tests)
              ∙ update_self mem (d + n) (mem (s + n)) a (omega tests)
              ∙ sym (moved_in d s (suc n) mem a (s + n) (omega tests) (omega tests) (omega tests))
          | inr outside ↦
              moved_out d s n mem' a (omega (tests, ==→ne a (d + n) outside))
              ∙ update-ne mem (d + n) (mem (s + n)) a (omega (tests, ==→ne a (d + n) outside))
              ∙ sym (moved_out d s (suc n) mem a (omega (tests, ==→ne a (d + n) outside)))
        ]
      ]
    ]

-- memmove leaves every byte of the destination as the byte that the source had there before the
-- call, also where the two areas overlap, and every other byte as it was.
pub memmove-moved :
    (dst src n : ℕ) (mem : ℕ → ℕ) (a : ℕ) → memmove dst src n mem a ≡ moved dst src n mem a
unfolding memmove
memmove-moved dst src n mem a = elim (Bool-cases (ltb src dst && ltb dst (src + n))) [
  | inl over ↦ rw over (copy_down-moved n dst src mem a (ground arith))
  | inr clear ↦ rw clear (copy_up-moved n dst src mem a (ground arith))
]
