-- ===== src/Strings.antt =====
-- xv6-public/string.c: the kernel's functions on bytes and strings. memmove works on one memory;
-- the others get each string as a function from its indices. An address or an index does not wrap,
-- since the arguments lie in memory.
pub mod Moves
pub mod Compares
pub mod Copies
mod Examples
use cmpt.Prelude.{
  ℕ, zero, suc, ◌+◌, ◌-◌, ◌%◌, ◌^◌, Bool, true, false, not, ◌&&◌, ◌||◌, ◌==◌, ltb, leb,
  if◌then◌else◌, update,
}

-- while(n-- > 0) *--d = *--s;
copy_down : ℕ → ℕ → ℕ → (ℕ → ℕ) → ℕ → ℕ
copy_down zero d s mem = mem
copy_down (suc n) d s mem = copy_down n (d - 1) (s - 1) (update mem (d - 1) (mem (s - 1)))

-- while(n-- > 0) *d++ = *s++;
copy_up : ℕ → ℕ → ℕ → (ℕ → ℕ) → ℕ → ℕ
copy_up zero d s mem = mem
copy_up (suc n) d s mem = copy_up n (d + 1) (s + 1) (update mem d (mem s))

-- memmove(dst, src, n), on a memory
pub memmove : ℕ → ℕ → ℕ → (ℕ → ℕ) → ℕ → ℕ
unfolding copy_down copy_up
memmove dst src n mem =
    if ltb src dst && ltb dst (src + n)
    then copy_down n (dst + n) (src + n) mem
    else copy_up n dst src mem

-- memcmp(v1, v2, n), from index i on; an `int` as a word
compare_from : ℕ → ℕ → (ℕ → ℕ) → (ℕ → ℕ) → ℕ
compare_from zero i s1 s2 = 0
compare_from (suc n) i s1 s2 =
    let rest = compare_from n (i + 1) s1 s2 in
    if s1 i == s2 i then rest else (s1 i + 2 ^ 32 - s2 i) % 2 ^ 32

pub memcmp : (ℕ → ℕ) → (ℕ → ℕ) → ℕ → ℕ
unfolding compare_from
memcmp v1 v2 n = compare_from n 0 v1 v2

-- strncmp(p, q, n), from index i on; an `int` as a word
differ_from : ℕ → ℕ → (ℕ → ℕ) → (ℕ → ℕ) → ℕ
differ_from zero i p q = 0
differ_from (suc n) i p q =
    let rest = differ_from n (i + 1) p q in
    if not (p i == 0) && (p i == q i) then rest else (p i + 2 ^ 32 - q i) % 2 ^ 32

pub strncmp : (ℕ → ℕ) → (ℕ → ℕ) → ℕ → ℕ
unfolding differ_from
strncmp p q n = differ_from n 0 p q

-- The loop of safestrcpy: k rounds from index i on, then the terminator.
copy_chars : ℕ → ℕ → (ℕ → ℕ) → (ℕ → ℕ) → ℕ → ℕ
copy_chars zero i src dst = update dst i 0
copy_chars (suc k) i src dst =
    let rest = copy_chars k (i + 1) src (update dst i (src i)) in
    if src i == 0 then update (update dst i 0) (i + 1) 0 else rest

-- safestrcpy(dst, src, n)
pub safestrcpy : ℕ → (ℕ → ℕ) → (ℕ → ℕ) → ℕ → ℕ
unfolding copy_chars
safestrcpy zero src dst = dst
safestrcpy (suc k) src dst = copy_chars k 0 src dst

-- while(n-- > 0) *s++ = 0;
pad : ℕ → ℕ → (ℕ → ℕ) → ℕ → ℕ
pad zero i s = s
pad (suc n) i s = pad n (i + 1) (update s i 0)

-- The loops of strncpy, from index i on.
copy_pad : ℕ → ℕ → (ℕ → ℕ) → (ℕ → ℕ) → ℕ → ℕ
unfolding pad
copy_pad zero i t s = s
copy_pad (suc n) i t s =
    let rest = copy_pad n (i + 1) t (update s i (t i)) in
    if t i == 0 then pad n (i + 1) (update s i (t i)) else rest

-- strncpy(s, t, n)
pub strncpy : (ℕ → ℕ) → (ℕ → ℕ) → ℕ → ℕ → ℕ
unfolding copy_pad
strncpy s t n = copy_pad n 0 t s
