-- ===== src/Syscall/Arguments.antt =====
-- What the kernel knows of an argument that it has fetched.
use cmpt.Prelude.{
  ℕ, zero, suc, ◌+◌, ◌-◌, ◌%◌, ◌^◌, ◌<◌, ◌≤◌, ◌≡◌, ◌≢◌, refl, ◌∙◌, sym, ap, subst, arith, true,
  false, ◌||◌, Option, none, some, ◌==◌, ltb, leb, Bool-cases, inl, inr, ◌⊎◌, ==→eq, ==→ne,
}
use cmpt.Kalloc.{kern_base}
use cmpt.Syscall.{User, string_end, fetchstr, argint, argptr}

module _ (sz i size : ℕ) (small : sz ≤ kern_base) where
  in_range : i < sz → i + size ≤ sz → (leb sz i || ltb sz ((i + size) % 2 ^ 32)) ≡ false
  in_range lt le =
      let e : (i + size) % 2 ^ 32 ≡ i + size = omega arith in rw e (ground (arith, lt, le))

  out_of_range :
      size < 2 ^ 31 → (sz ≤ i) ⊎ (sz < i + size) → (leb sz i || ltb sz ((i + size) % 2 ^ 32)) ≡ true
  out_of_range positive (inl le) = ground (arith, le)
  out_of_range positive (inr lt) = elim (Bool-cases (leb sz i)) [
    | inl e ↦ rw e refl
    | inr e ↦
        let below : i < sz = ground (arith, e) in
        let q : (i + size) % 2 ^ 32 ≡ i + size = omega arith in rw (e, q) (ground (arith, lt))
  ]

  wrapped :
      size < 2 ^ 32
      → i < sz
      → 2 ^ 32 ≤ i + size
      → (leb sz i || ltb sz ((i + size) % 2 ^ 32)) ≡ false
  wrapped word lt wrap =
      let e : (i + size) % 2 ^ 32 ≡ i + size - 2 ^ 32 = omega arith in
      rw e (ground (arith, lt, word))

-- In a process below KERNBASE, argptr for a size that is not negative returns the argument where
-- the block of that size at it lies in the process and begins below its end, and -1 where it does
-- not; for a negative size it accepts a block whose end wraps around the address space.
pub argptr-Range :
    (p : User) (n size i : ℕ)
    → p.sz ≤ kern_base
    → argint p n ≡ some i
    → (i < p.sz → i + size ≤ p.sz → argptr p n size ≡ some i)
      × (size < 2 ^ 31 → (p.sz ≤ i) ⊎ (p.sz < i + size) → argptr p n size ≡ none)
      × (2 ^ 31 ≤ size → size < 2 ^ 32 → i < p.sz → 2 ^ 32 ≤ i + size → argptr p n size ≡ some i)
unfolding argptr
argptr-Range p n size i small e = (
  λ lt le. rw (argptr, e, in_range p.sz i size small lt le) refl,
  λ positive out. rw (argptr, e, out_of_range p.sz i size small positive out) refl,
  λ _ word lt wrap. rw (argptr, e, wrapped p.sz i size small word lt wrap) refl,
)

-- A string at addr that ends in the process, or the lack of its end
pub data Terminated (p : User) (addr : ℕ) : Option ℕ → Type 0 where
  ended :
      {len : ℕ}
      → addr + len < p.sz
      → p.mem (addr + len) ≡ 0
      → ((k : ℕ) → k < len → p.mem (addr + k) ≢ 0)
      → Terminated p addr (some len)
  open_ended : ((k : ℕ) → addr + k < p.sz → p.mem (addr + k) ≢ 0) → Terminated p addr none

string_end-Terminated :
    (p : User) (addr n k : ℕ)
    → addr + k + n ≡ p.sz
    → ((j : ℕ) → j < k → p.mem (addr + j) ≢ 0)
    → Terminated p addr (string_end n (addr + k) k p.mem)
unfolding string_end
string_end-Terminated p addr zero k e before = open_ended (λ j lt. before j (omega (arith, e)))
string_end-Terminated p addr (suc n) k e before = elim (Bool-cases (p.mem (addr + k) == 0)) [
  | inl z ↦ rw z (ended (omega (arith, e)) (==→eq (p.mem (addr + k)) 0 z) before)
  | inr z ↦
      let next : addr + k + 1 ≡ addr + (k + 1) = omega arith in
      rw (z, next)
        (string_end-Terminated p addr n (k + 1) (omega (arith, e)) (λ j lt.
          elim (Bool-cases (j == k)) [
            | inl q ↦ λ m.
                ==→ne (p.mem (addr + k)) 0 z (ap (λ i. p.mem (addr + i)) (sym (==→eq j k q)) ∙ m)
            | inr q ↦ before j (omega (arith, lt, ==→ne j k q))
          ]))
]

-- fetchstr returns the length of the string at addr where a NUL ends it inside the process, and -1
-- exactly where none does.
pub fetchstr-Terminated : (p : User) (addr : ℕ) → Terminated p addr (fetchstr p addr)
unfolding fetchstr
fetchstr-Terminated p addr = elim (Bool-cases (leb p.sz addr)) [
  | inl e ↦
      let past : p.sz ≤ addr = ground (arith, e) in
      rw (fetchstr, e) (open_ended (λ k lt. absurd (omega arith)))
  | inr e ↦
      let below : addr < p.sz = ground (arith, e) in
      let here : addr + 0 ≡ addr = omega arith in
      rw (fetchstr, e)
        (subst (λ s. Terminated p addr (string_end (p.sz - addr) s 0 p.mem)) here
          (string_end-Terminated p addr (p.sz - addr) 0 (omega arith)
            (λ j lt. absurd (omega arith))))
]
