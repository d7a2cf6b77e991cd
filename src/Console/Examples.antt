-- ===== src/Console/Examples.antt =====
-- The console on concrete keys.
use cmpt.Prelude.{ℕ, ◌≡◌, refl, arith, true, false, List, [], ◌∷◌, update}
use cmpt.Console.{Input, consputc, wakeup, backspace, consoleintr, consoleread, printint}
use cmpt.Console.Ring.{IsValid, ready, keys}
use cmpt.Console.Editing.{Edits, editor, edit_all, consoleintr-Edits}
use cmpt.Console.Lines.{Reads, consoleread-Reads}

-- The counters are about to wrap.
abbrev idle : Input
idle = record { buf = λ i. 0; r = 4294967295; w = 4294967295; e = 4294967295 }

idle-IsValid : IsValid idle
idle-IsValid = record {
  r_range = omega arith;
  w_range = omega arith;
  e_range = omega arith;
  fits = omega arith;
  unbroken = λ i lt. absurd (omega (arith, lt));
}

-- a, b, backspace, c and a return
abbrev typing : List ℕ
typing = 97 ∷ 98 ∷ 127 ∷ 99 ∷ 13 ∷ []

consoleintr-Edits_example : Edits idle (edit_all typing (editor idle)) (consoleintr typing idle)
consoleintr-Edits_example =
    consoleintr-Edits typing idle idle-IsValid
      (omega arith, (omega arith, (omega arith, (omega arith, (omega arith, tt)))))

return_commits : ready (consoleintr typing idle).0 ≡ 97 ∷ 99 ∷ 10 ∷ []
unfolding consoleintr ready keys
return_commits = refl

echo_order :
    (consoleintr typing idle).1
    ≡ consputc 97 ∷ consputc 98 ∷ consputc backspace ∷ consputc 99 ∷ consputc 10 ∷ wakeup ∷ []
unfolding consoleintr
echo_order = refl

-- A line a, newline, b to read
abbrev stocked : Input
stocked = record {
  buf = update (update (update (λ i. 0) 127 97) 0 10) 1 98;
  r = 4294967295;
  w = 2;
  e = 2;
}

stocked-IsValid : IsValid stocked
stocked-IsValid = record {
  r_range = omega arith;
  w_range = omega arith;
  e_range = omega arith;
  fits = omega arith;
  unbroken = λ i lt. absurd (omega (arith, lt));
}

consoleread-Reads_example : Reads false 5 5 stocked (consoleread false 5 5 stocked)
consoleread-Reads_example = consoleread-Reads false 5 5 stocked stocked-IsValid (omega arith)

takes_two : (consoleread false 5 5 stocked).bytes ≡ 97 ∷ 10 ∷ []
unfolding consoleread
takes_two = refl

printint_minus : printint 4294967254 10 true ≡ 45 ∷ 52 ∷ 50 ∷ []
unfolding printint
printint_minus = refl
