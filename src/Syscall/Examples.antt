-- ===== src/Syscall/Examples.antt =====
-- Arguments on the stack of a small process.
use cmpt.Prelude.{◌+◌, ◌<◌, ◌≤◌, ◌^◌, ◌≡◌, ◌⊎◌, refl, arith, none, some, ◌==◌, if◌then◌else◌}
use cmpt.Syscall.{User, fetchint, argint, argptr}
use cmpt.Syscall.Arguments.{argptr-Range}

-- The first argument, at address 104, is 50; the string at 60 is three bytes long.
abbrev user : User
user = record {
  sz = 200;
  esp = 100;
  mem = λ a.
      if a == 104
      then 50
      else if a == 60
      then 1
      else if a == 61
      then 2
      else if a == 62
      then 3
      else 0;
}

first : argint user 0 ≡ some 50
unfolding argint fetchint
first = refl

argptr-Range_example :
    (50 < 200 → 50 + 20 ≤ 200 → argptr user 0 20 ≡ some 50)
    × (20 < 2 ^ 31 → (200 ≤ 50) ⊎ (200 < 50 + 20) → argptr user 0 20 ≡ none)
    × (2 ^ 31 ≤ 20 → 20 < 2 ^ 32 → 50 < 200 → 2 ^ 32 ≤ 50 + 20 → argptr user 0 20 ≡ some 50)
argptr-Range_example = argptr-Range user 0 20 50 (omega arith) first
