-- ===== src/Fs/Content/Reading.antt =====
-- readi returns the bytes of the file.
use cmpt.Prelude.{
  ℕ, zero, suc, ◌+◌, ◌-◌, ◌*◌, ◌/◌, ◌%◌, ◌^◌, ◌<◌, ◌≤◌, ◌≡◌, ◌≢◌, refl, ◌∙◌, ap, ap₂, arith, true,
  false, none, some, ◌∷◌, ◌++◌, ◌==◌, ltb, ◌||◌, if◌then◌else◌, Bool-cases, inl, inr, ◌⊎◌, ==→eq,
  ==→ne, ne→==, le→ltb, lt→ltb, ltb→lt, ltb→le, sym, tests,
}
use cmpt.Disk.{word}
use cmpt.Fs.{State, done, and_then, pure, bsize, ndirect, nindirect, maxfile, t_dev}
use cmpt.Fs.Content.{Devices, addr_of, indirect, bmap, slice, chunk, read_from, readi}
use cmpt.Fs.Content.Laid.{bytes_at}
use cmpt.Fs.Content.Growth.{block_of}

-- The bytes of the file of inode ip
abbrev pub content : State → ℕ → ℕ → ℕ
content s ip = bytes_at s.view (block_of s.view (s.icache ip).addrs)

pub slice-cong :
    (a g : ℕ → ℕ) (o p n : ℕ)
    → ((i : ℕ) → i < n → a (o + i) ≡ g (p + i))
    → slice a o n ≡ slice g p n
unfolding slice
slice-cong a g o p zero same = refl
slice-cong a g o p (suc n) same =
    ap₂ (λ x xs. x ∷ xs) (ap a (omega arith) ∙ same 0 (omega arith) ∙ ap g (omega arith))
      (slice-cong a g (o + 1) (p + 1) n
        (λ i l. ap a (omega arith) ∙ same (i + 1) (omega arith) ∙ ap g (omega arith)))

slice-++ : (g : ℕ → ℕ) (o m n : ℕ) → slice g o m ++ slice g (o + m) n ≡ slice g o (m + n)
unfolding slice
slice-++ g o zero n = ap₂ (slice g) (omega arith) (omega arith)
slice-++ g o (suc m) n =
    let next : o + suc m ≡ o + 1 + m = omega arith in
    let count : suc (m + n) ≡ suc m + n = omega arith in
    ap (λ k. g o ∷ (slice g (o + 1) m ++ slice g k n)) next
    ∙ ap (λ xs. g o ∷ xs) (slice-++ g (o + 1) m n)
    ∙ ap (slice g o) count

-- A round of readi and writei stays in its block, and gets further.
pub record Chunk (left off m : ℕ) : Type 0 where
  pub some_left : 0 < m
  pub no_more : m ≤ left
  pub in_block : off % bsize + m ≤ bsize

pub chunk-Chunk : (left off : ℕ) → left ≢ 0 → Chunk left off (chunk left off)
chunk-Chunk left off ne = elim (Bool-cases (ltb left (bsize - off % bsize))) [
  | inl e ↦ rw e (record {
    some_left = omega arith;
    no_more = omega arith;
    in_block = omega (arith, ltb→lt left (bsize - off % bsize) e);
  })
  | inr e ↦ rw e (record {
    some_left = omega arith;
    no_more = ltb→le left (bsize - off % bsize) e;
    in_block = omega arith;
  })
]

-- The bytes of a round, in the block that bmap gives
pub content-block :
    (t : State) (ip b off i m : ℕ)
    → block_of t.view (t.icache ip).addrs (off / bsize) ≡ b
    → b ≢ 0
    → off % bsize + m ≤ bsize
    → i < m
    → t.view b (off % bsize + i) ≡ content t ip (off + i)
content-block t ip b off i m here real fit lt =
    let q : (off + i) / bsize ≡ off / bsize = omega arith in
    let r : (off + i) % bsize ≡ off % bsize + i = omega arith in
    rw (q, r, here, ne→== b 0 real) refl

-- bmap of a block that is there
addr_of_there :
    (ip n : ℕ) (s : State)
    → (s.icache ip).addrs n ≢ 0
    → addr_of ip n s ≡ done ((s.icache ip).addrs n) s
unfolding addr_of
addr_of_there ip n s ne = rw (ne→== ((s.icache ip).addrs n) 0 ne) refl

indirect_there :
    (addr bn : ℕ) (s : State)
    → word (s.view addr) bn ≢ 0
    → indirect addr bn s ≡ done (word (s.view addr) bn) s
unfolding indirect
indirect_there addr bn s ne = rw (ne→== (word (s.view addr) bn) 0 ne) refl

bmap_there :
    (ip bn b : ℕ) (s : State)
    → bn < maxfile
    → block_of s.view (s.icache ip).addrs bn ≡ b
    → b ≢ 0
    → bmap ip bn s ≡ done b s
unfolding bmap
bmap_there ip bn b s lt here real = elim (Bool-cases (ltb bn ndirect)) [
  | inl e ↦
      let at : (s.icache ip).addrs bn ≡ b = sym (rw e refl) ∙ here in
      rw e (addr_of_there ip bn s (λ z. real (sym at ∙ z)) ∙ ap (λ x. done x s) at)
  | inr e ↦ elim (Bool-cases ((s.icache ip).addrs ndirect == 0)) [
    | inl z ↦ absurd (real (sym here ∙ (rw (e, z) refl)))
    | inr z ↦
        let at : word (s.view ((s.icache ip).addrs ndirect)) (bn - ndirect) ≡ b =
          sym (rw (e, z) refl) ∙ here in
        rw (e, lt→ltb (bn - ndirect) nindirect (omega tests))
          (ap (λ r. and_then r (λ addr. indirect addr (bn - ndirect)))
              (addr_of_there ip ndirect s (==→ne ((s.icache ip).addrs ndirect) 0 z))
            ∙ indirect_there ((s.icache ip).addrs ndirect) (bn - ndirect) s (λ w. real (sym at ∙ w))
            ∙ ap (λ x. done x s) at)
  ]
]

-- The file of inode ip has a block for every byte of this range.
abbrev pub Covers : ℕ → ℕ → ℕ → State → Type 0
Covers ip off n t =
    (o : ℕ) → off ≤ o → o < off + n → block_of t.view (t.icache ip).addrs (o / bsize) ≢ 0

read_from-slice :
    (fuel left off ip : ℕ) (s : State)
    → Covers ip off left s
    → left ≤ fuel
    → off + left ≤ maxfile * bsize
    → read_from fuel left off ip s ≡ done (slice (content s ip) off left) s
unfolding read_from slice
read_from-slice zero left off ip s there le fit =
    let e : left ≡ 0 = omega arith in rw (e, read_from) refl
read_from-slice (suc fuel) left off ip s there le fit = elim (Bool-cases (left == 0)) [
  | inl e ↦ rw (e, read_from) (ap (λ n. done (slice (content s ip) off n) s) (sym (==→eq left 0 e)))
  | inr e ↦
      let c = chunk-Chunk left off (==→ne left 0 e) in
      let m = chunk left off in
      let b = block_of s.view (s.icache ip).addrs (off / bsize) in
      let real : b ≢ 0 = there off (omega arith) (omega (arith, c.some_left, c.no_more)) in
      rw
        (
          e,
          read_from,
          bmap_there ip (off / bsize) b s (omega (arith, c.some_left, c.no_more)) refl real,
        )
        (ap (λ r. and_then r (λ rest. pure (slice (s.view b) (off % bsize) m ++ rest)))
            (read_from-slice fuel (left - m) (off + m) ip s
              (λ o ge lo. there o (omega arith) (omega (arith, c.no_more)))
              (omega (arith, c.some_left)) (omega (arith, c.no_more)))
          ∙ ap (λ bytes. done bytes s)
              (ap (λ xs. xs ++ slice (content s ip) (off + m) (left - m))
                  (slice-cong (s.view b) (content s ip) (off % bsize) off m
                    (λ i li. content-block s ip b off i m refl real c.in_block li))
                ∙ slice-++ (content s ip) off m (left - m)
                ∙ ap (slice (content s ip) off) (omega (arith, c.no_more))))
]

-- The test of readi and writei for an offset past the end, and for the wrap of off + n
pub past_end :
    (size off n : ℕ)
    → off < 2 ^ 32
    → n < 2 ^ 32
    → (size < off) ⊎ (2 ^ 32 ≤ off + n)
    → (ltb size off || ltb ((off + n) % 2 ^ 32) off) ≡ true
past_end size off n lo ln (inl lt) = rw (lt→ltb size off lt) refl
past_end size off n lo ln (inr wrap) =
    let e : ltb ((off + n) % 2 ^ 32) off ≡ true = lt→ltb ((off + n) % 2 ^ 32) off (omega arith) in
    rw e (ground arith)

pub not_past_end :
    (size off n : ℕ)
    → off ≤ size
    → off + n < 2 ^ 32
    → (ltb size off || ltb ((off + n) % 2 ^ 32) off) ≡ false
not_past_end size off n le lt =
    let e : ltb ((off + n) % 2 ^ 32) off ≡ false = le→ltb ((off + n) % 2 ^ 32) off (omega arith) in
    rw (le→ltb size off le, e) refl

-- the count of readi
abbrev pub cut_at : ℕ → ℕ → ℕ → ℕ
cut_at size off n = if ltb size (off + n) then size - off else n

cut_at-inside : (size off n : ℕ) → off ≤ size → off + cut_at size off n ≤ size
cut_at-inside size off n le = elim (Bool-cases (ltb size (off + n))) [
  | inl e ↦ rw e (omega arith)
  | inr e ↦ rw e (ltb→le size (off + n) e)
]

-- readi of an inode that is no device returns the bytes of the file from off on, up to its end,
-- without a change, where the file has a block for each of them; for an offset past the end, and
-- where off + n wraps around, it returns -1 without a change.
pub readi-slice :
    (devsw : Devices) (s : State) (ip off n : ℕ)
    → (s.icache ip).type ≢ t_dev
    → (s.icache ip).size ≤ maxfile * bsize
    → Covers ip off (cut_at (s.icache ip).size off n) s
    → off < 2 ^ 32
    → n < 2 ^ 32
    → (((s.icache ip).size < off) ⊎ (2 ^ 32 ≤ off + n) → readi devsw ip off n s ≡ done none s)
      × (off ≤ (s.icache ip).size
          → off + n < 2 ^ 32
          → readi devsw ip off n s
            ≡ done (some (slice (content s ip) off (cut_at (s.icache ip).size off n))) s)
unfolding readi
readi-slice devsw s ip off n file small there lo ln = (
  λ out.
      rw (readi, ne→== (s.icache ip).type t_dev file, past_end (s.icache ip).size off n lo ln out)
        refl,
  λ le lt.
      rw (readi, ne→== (s.icache ip).type t_dev file, not_past_end (s.icache ip).size off n le lt)
        (ap (λ r. and_then r (λ bytes. pure (some bytes)))
          (read_from-slice (cut_at (s.icache ip).size off n) (cut_at (s.icache ip).size off n) off
            ip s there (omega arith) (omega (arith, cut_at-inside (s.icache ip).size off n le)))),
)
