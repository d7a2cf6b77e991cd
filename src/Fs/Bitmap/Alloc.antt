-- ===== src/Fs/Bitmap/Alloc.antt =====
-- What balloc and bfree do to the free map.
use cmpt.Prelude.{
  false-ne_true, ℕ, zero, suc, ◌+◌, ◌-◌, ◌*◌, ◌/◌, ◌%◌, ◌<◌, ◌≤◌, ◌≡◌, ◌≢◌, refl, ◌∙◌, sym, ap,
  arith, true, false, Option, none, some, ◌==◌, ltb, if◌then◌else◌, update, update-ne, Bool-cases,
  inl, inr, ==→eq, ==→ne, tests,
}
use cmpt.Disk.{Block, Disk}
use cmpt.Fs.{State, SuperBlock, done, bpb, bblock, bzero}
use cmpt.Fs.Rules.{Ends, ends, stops}
use cmpt.Fs.Bitmap.{block_bit, mark_used, find_bit, balloc_from, balloc}
use cmpt.Fs.Bitmap.Map.{used, Mapped, used-mark_used}

data Found (b size bi k : ℕ) (a : Block) : Option ℕ → Type 0 where
  found :
      {j : ℕ}
      → j < bi + k
      → b + j < size
      → block_bit a j ≡ false
      → ((m : ℕ) → bi ≤ m → m < j → block_bit a m ≡ true)
      → Found b size bi k a (some j)
  missing :
      ((m : ℕ) → bi ≤ m → m < bi + k → b + m < size → block_bit a m ≡ true)
      → Found b size bi k a none

find_bit-Found : (b size k bi : ℕ) (a : Block) → Found b size bi k a (find_bit k bi b size a)
unfolding find_bit
find_bit-Found b size zero bi a = missing (λ m le lt. absurd (omega arith))
find_bit-Found b size (suc k) bi a = elim (Bool-cases (ltb (b + bi) size)) [
  | inr out ↦ rw out (missing (λ m le lt inside. absurd (omega tests)))
  | inl inside ↦ elim (Bool-cases (block_bit a bi)) [
    | inr free ↦
        rw (inside, free) (found (omega arith) (omega tests) free (λ m le lt. absurd (omega arith)))
    | inl taken ↦ rw (inside, taken) (widen taken (find_bit-Found b size k (bi + 1) a))
  ]
]
  where
    here_or :
        (m : ℕ)
        → block_bit a bi ≡ true
        → bi ≤ m
        → (bi + 1 ≤ m → block_bit a m ≡ true)
        → block_bit a m ≡ true
    here_or m taken le next = elim (Bool-cases (m == bi)) [
      | inl e ↦ ap (block_bit a) (==→eq m bi e) ∙ taken
      | inr e ↦ next (omega (tests, ==→ne m bi e))
    ]

    widen :
        {o : Option ℕ}
        → block_bit a bi ≡ true
        → Found b size (bi + 1) k a o
        → Found b size bi (suc k) a o
    widen taken (found {j} lt inside free before) =
        found (omega arith) inside free (λ m le l. here_or m taken le (λ le'. before m le' l))
    widen taken (missing all) =
        missing (λ m le lt inside. here_or m taken le (λ le'. all m le' (omega arith) inside))

-- the blocks below b are used
abbrev pub UsedBelow : State → ℕ → Type 0
UsedBelow s b = (c : ℕ) → c < b → c < s.sb.size → used s.view s.sb c ≡ true

-- The disk and the state after balloc of block b.
abbrev pub alloc_view : Disk → SuperBlock → ℕ → Disk
alloc_view v sb b =
    update (update v (bblock b sb) (mark_used (v (bblock b sb)) (b % bpb))) b (λ _. 0)

abbrev pub allocated : State → ℕ → State
allocated s b = record s { view = alloc_view s.view s.sb b }

pub record Allocated (s : State) (b : ℕ) (t : State) : Type 0 where
  pub in_size : b < s.sb.size
  pub was_free : used s.view s.sb b ≡ false
  pub first : UsedBelow s b
  pub now : t ≡ allocated s b

-- balloc found no block.
abbrev pub Full : State → State → Type 0
Full s t = (t ≡ s) × UsedBelow s s.sb.size

module _ (n b : ℕ) (s : State) (inside : ltb b s.sb.size ≡ true) where
  balloc_from_next :
      find_bit bpb 0 b s.sb.size (s.view (bblock b s.sb)) ≡ none
      → balloc_from (suc n) b s ≡ balloc_from n (b + bpb) s
  unfolding balloc_from
  balloc_from_next e = rw (balloc_from, inside, e) refl

  balloc_from_found :
      (bi : ℕ)
      → find_bit bpb 0 b s.sb.size (s.view (bblock b s.sb)) ≡ some bi
      → balloc_from (suc n) b s
        ≡ done (b + bi) (record s {
          view =
              update
                (update s.view (bblock b s.sb) (mark_used (s.view (bblock b s.sb)) bi))
                (b + bi)
                (λ _. 0);
        })
  unfolding balloc_from bzero
  balloc_from_found bi e = rw (balloc_from, inside, e) refl

-- A bit of the map's block of b, as the block that it stands for.
bit_of :
    (s : State) (b m : ℕ)
    → b % bpb ≡ 0
    → m < bpb
    → used s.view s.sb (b + m) ≡ block_bit (s.view (bblock b s.sb)) m
bit_of s b m al lt =
    let q : bblock (b + m) s.sb ≡ bblock b s.sb = omega arith in
    let r : (b + m) % bpb ≡ m = omega arith in rw (q, r) refl

search_bits :
    (n b : ℕ) (s : State) (o : Option ℕ)
    → ltb b s.sb.size ≡ true
    → b % bpb ≡ 0
    → UsedBelow s b
    → find_bit bpb 0 b s.sb.size (s.view (bblock b s.sb)) ≡ o
    → Found b s.sb.size 0 bpb (s.view (bblock b s.sb)) o
    → (UsedBelow s (b + bpb) → Ends (Allocated s) (Full s) (balloc_from n (b + bpb) s))
    → Ends (Allocated s) (Full s) (balloc_from (suc n) b s)
search_bits n b s (some bi) inside al below e (found lt small free before) next =
    let q : bblock (b + bi) s.sb ≡ bblock b s.sb = omega arith in
    let r : (b + bi) % bpb ≡ bi = omega arith in
    rw (balloc_from_found n b s inside bi e) (
      ends (record {
        in_size = small;
        was_free = bit_of s b bi al lt ∙ free;
        first = λ c l l'. elim (Bool-cases (ltb c b)) [
          | inl old ↦ below c (omega tests) l'
          | inr new ↦ at_bit c (c - b) (omega tests) (omega tests)
        ];
        now = rw (q, r) refl;
      }))
  where
    at_bit : (c m : ℕ) → c ≡ b + m → m < bi → used s.view s.sb c ≡ true
    at_bit c m e l =
        ap (used s.view s.sb) e ∙ bit_of s b m al (omega arith) ∙ before m (omega arith) l
search_bits n b s none inside al below e (missing all) next = rw (balloc_from_next n b s inside e) (
    next (λ c l l'. elim (Bool-cases (ltb c b)) [
      | inl old ↦ below c (omega tests) l'
      | inr new ↦ at_bit c (c - b) (omega tests) (omega tests) l'
    ]))
  where
    at_bit : (c m : ℕ) → c ≡ b + m → m < bpb → c < s.sb.size → used s.view s.sb c ≡ true
    at_bit c m e l l' =
        ap (used s.view s.sb) e
        ∙ bit_of s b m al l
        ∙ all m (omega arith) (omega arith) (omega arith)

balloc_from-Allocated :
    (n b : ℕ) (s : State)
    → b % bpb ≡ 0
    → s.sb.size + bpb ≤ b + n * bpb
    → b < s.sb.size + bpb
    → UsedBelow s b
    → Ends (Allocated s) (Full s) (balloc_from n b s)
unfolding balloc_from bzero
balloc_from-Allocated zero b s al fuel lt below = absurd (omega arith)
balloc_from-Allocated (suc n) b s al fuel lt below = elim (Bool-cases (ltb b s.sb.size)) [
  | inr out ↦ rw (balloc_from, out) (stops (refl, λ c l. below c (omega tests)))
  | inl inside ↦
      search_bits n b s (find_bit bpb 0 b s.sb.size (s.view (bblock b s.sb))) inside al below refl
        (find_bit-Found b s.sb.size bpb 0 (s.view (bblock b s.sb)))
        (balloc_from-Allocated n (b + bpb) s (omega arith) (omega arith) (omega tests))
]

-- The state that balloc leaves, with the block that it finds
pub balloc-Allocated : (s : State) → Ends (Allocated s) (Full s) (balloc s)
unfolding balloc
balloc-Allocated s =
    balloc_from-Allocated (suc (s.sb.size / bpb + 1)) 0 s (omega arith) (omega arith) (omega arith)
      (λ c l. absurd (omega arith))

-- After balloc the map differs in that block only.
pub used-alloc_view :
    (v : Disk) (sb : SuperBlock) (b : ℕ)
    → Mapped v sb
    → b < sb.size
    → used v sb b ≡ false
    → (c : ℕ) → c < sb.size
    → used (alloc_view v sb b) sb c ≡ (if c == b then true else used v sb c)
used-alloc_view v sb b d lt free c lc =
    let apart : bblock c sb ≢ b =
      λ e. false-ne_true (sym free ∙ ap (used v sb) (sym e) ∙ d.map_used c lc) in
    ap (λ (a : Block). block_bit a (c % bpb))
      (update-ne (update v (bblock b sb) (mark_used (v (bblock b sb)) (b % bpb))) b (λ _. 0)
        (bblock c sb) apart)
    ∙ used-mark_used v sb b (d.bytes (bblock b sb)) c
