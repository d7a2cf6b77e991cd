-- ===== src/Console.antt =====
-- xv6-public/console.c: the keyboard's buffer, which consoleintr edits and consoleread empties,
-- and the printing of numbers. A call holds input.lock but for its sleep, so a run of consoleread is
-- from where it gets the lock to where it returns or sleeps. What consputc does to the screen and
-- the serial port has no state here: its arguments are the output. The inode's lock is left out.
pub mod Ring
pub mod Erasing
pub mod Storing
pub mod Editing
pub mod Lines
pub mod Numbers
mod Examples
use cmpt.Prelude.{
  ℕ, zero, suc, ◌+◌, ◌-◌, ◌*◌, ◌/◌, ◌%◌, ◌^◌, Bool, true, false, not, ◌&&◌, ◌||◌, List, [], ◌∷◌,
  ◌++◌, ◌==◌, ltb, if◌then◌else◌, update,
}

-- INPUT_BUF
abbrev pub input_buf : ℕ
input_buf = 128

-- The wrap of a `uint`
abbrev pub wrap : ℕ → ℕ
wrap n = n % 2 ^ 32

-- The struct input, without its lock
pub record Input : Type 0 where
  pub buf : ℕ → ℕ
  pub r : ℕ
  pub w : ℕ
  pub e : ℕ

-- What consoleintr calls, with the argument of consputc
pub data Output : Type 0 where
  consputc : ℕ → Output
  procdump : Output
  wakeup : Output

-- C(x)
abbrev pub ctrl : ℕ → ℕ
ctrl x = x - 64

-- '\n', '\r' and 0x7f
abbrev pub newline : ℕ
newline = 10

abbrev pub carriage_return : ℕ
carriage_return = 13

abbrev pub delete_key : ℕ
delete_key = 127

-- BACKSPACE
abbrev pub backspace : ℕ
backspace = 0x100

-- input.e--; consputc(BACKSPACE);
abbrev pub back : Input → Input
back s = record s { e = wrap (s.e + (2 ^ 32 - 1)) }

-- The loop of C('U'), which has at most e - w rounds
pub kill_line : ℕ → Input → Input × List Output
kill_line zero s = (s, [])
kill_line (suc n) s =
    let rest = kill_line n (back s) in
    if not (s.e == s.w) && not (s.buf (wrap (s.e + (2 ^ 32 - 1)) % input_buf) == newline)
    then (rest.0, consputc backspace ∷ rest.1)
    else (s, [])

-- The storing of a character, and the end of a line
pub enter : ℕ → Input → Input × List Output
enter c s =
    let e = wrap (s.e + 1) in
    let s' = record s { buf = update s.buf (s.e % input_buf) (c % 256); e = e } in
    if c == newline || (c == ctrl 68 || e == wrap (s.r + input_buf))
    then (record s' { w = e }, consputc c ∷ wakeup ∷ [])
    else (s', consputc c ∷ [])

-- The switch of consoleintr
pub on_key : ℕ → Input → Input × List Output
unfolding kill_line enter
on_key c s =
    if c == ctrl 80
    then (s, procdump ∷ [])
    else if c == ctrl 85
    then kill_line (wrap (s.e + 2 ^ 32 - s.w)) s
    else if c == ctrl 72 || c == delete_key
    then (if not (s.e == s.w) then (back s, consputc backspace ∷ []) else (s, []))
    else if not (c == 0) && ltb (wrap (s.e + 2 ^ 32 - s.r)) input_buf
    then enter (if c == carriage_return then newline else c) s
    else (s, [])

-- consoleintr, on the characters that getc returns before it returns a negative number
pub consoleintr : List ℕ → Input → Input × List Output
unfolding on_key
consoleintr [] s = (s, [])
consoleintr (c ∷ cs) s =
    let (s', out) = on_key c s in let (s'', more) = consoleintr cs s' in (s'', out ++ more)

-- How a run of consoleread ends: with target - n, with -1, or in sleep
pub data LineEnd : Type 0 where
  returned : LineEnd
  interrupted : LineEnd
  sleeping : LineEnd

pub record ReadRun : Type 0 where
  pub input : Input
  pub bytes : List ℕ  -- stored through dst
  pub ending : LineEnd

abbrev pub took : ℕ → ReadRun → ReadRun
took c o = record o { bytes = c ∷ o.bytes }

-- A run of consoleread's loop, with n bytes left to read of target
pub consoleread : Bool → ℕ → ℕ → Input → ReadRun
consoleread killed target zero s = record { input = s; bytes = []; ending = returned }
consoleread killed target (suc n) s =
    let c = s.buf (s.r % input_buf) in
    let s' = record s { r = wrap (s.r + 1) } in
    let rest = consoleread killed target n s' in
    if s.r == s.w
    then record { input = s; bytes = []; ending = if killed then interrupted else sleeping }
    else if c == ctrl 68
    then record {
      input = if ltb (suc n) target then record s' { r = wrap (s'.r + (2 ^ 32 - 1)) } else s';
      bytes = [];
      ending = returned;
    }
    else if c == newline
    then record { input = s'; bytes = c ∷ []; ending = returned }
    else took c rest

-- The digits of printint's first loop, the last one first; a base is at least 2, so a number below
-- 2 ^ 32 has at most 32 of them.
pub digits_of : ℕ → ℕ → ℕ → List ℕ
digits_of zero x base = []
digits_of (suc n) x base =
    let d = if ltb (x % base) 10 then 48 + x % base else 87 + x % base in
    let rest = digits_of n (x / base) base in if x / base == 0 then d ∷ [] else d ∷ rest

abbrev pub is_negative : ℕ → Bool
is_negative xx = not (ltb xx (2 ^ 31))

-- buf of printint, as it is filled; an int is its word of 32 bits.
pub printint_buf : ℕ → ℕ → Bool → List ℕ
unfolding digits_of
printint_buf xx base sign =
    if sign && is_negative xx
    then digits_of 32 ((2 ^ 32 - xx) % 2 ^ 32) base ++ 45 ∷ []
    else digits_of 32 xx base

pub put_back : List ℕ → List ℕ → List ℕ
put_back [] out = out
put_back (c ∷ cs) out = put_back cs (c ∷ out)

-- printint: the arguments of consputc
pub printint : ℕ → ℕ → Bool → List ℕ
unfolding printint_buf put_back
printint xx base sign = put_back (printint_buf xx base sign) []
