-- ===== src/Strings/Examples.antt =====
-- Short strings and overlapping areas.
use cmpt.Prelude.{ℕ, ◌+◌, ◌≡◌, refl, arith, ◌==◌, if◌then◌else◌}
use cmpt.Strings.{memmove, strncmp}
use cmpt.Strings.Moves.{moved, memmove-moved}
use cmpt.Strings.Compares.{Bytes}

-- the bytes 100, 101, 102, ...
abbrev counting : ℕ → ℕ
counting a = 100 + a

-- "ab"
abbrev ab : ℕ → ℕ
ab i = if i == 0 then 97 else if i == 1 then 98 else 0

-- "abc"
abbrev abc : ℕ → ℕ
abc i = if i == 0 then 97 else if i == 1 then 98 else if i == 2 then 99 else 0

ab-Bytes : Bytes ab
ab-Bytes i = ground arith

abc-Bytes : Bytes abc
abc-Bytes i = ground arith

memmove-moved_example : memmove 3 1 4 counting 5 ≡ moved 3 1 4 counting 5
memmove-moved_example = memmove-moved 3 1 4 counting 5

-- The area moves up over itself.
memmove_up : memmove 3 1 4 counting 6 ≡ 104
unfolding memmove
memmove_up = refl

strncmp_prefix : strncmp ab abc 2 ≡ 0
unfolding strncmp
strncmp_prefix = refl

strncmp_shorter : strncmp ab abc 3 ≡ 4294967197
unfolding strncmp
strncmp_shorter = refl
