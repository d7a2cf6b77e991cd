-- ===== src/File/Counts.antt =====
-- The reference count of a file is the number of references that the kernel holds.
use cmpt.Prelude.{
  ℕ, zero, suc, ◌+◌, ◌-◌, ◌<◌, ◌≤◌, ◌≡◌, ◌≢◌, inl, inr, refl, ◌∙◌, sym, ap, arith, true, false,
  Option, none, some, List, [], ◌∷◌, ◌++◌, ◌==◌, ltb, if◌then◌else◌, update, Bool-cases, ==→eq,
  ==→ne, eq→==, ne→==, tests,
}
use cmpt.File.{
  File, FileTable, fd_none, nfile, find_file, filealloc, filedup, fileclose, Release, nothing,
  release,
}

-- how often i stands in the list
unfoldable pub count : ℕ → List ℕ → ℕ
count i [] = 0
count i (x ∷ xs) = if i == x then count i xs + 1 else count i xs

pub record Files : Type 0 where
  pub table : FileTable
  pub held : List ℕ

-- A holder of a reference may set the fields of the file, but not its count.
pub data Step (s : Files) : Files → Type 0 where
  allocates :
      {i : ℕ} {t : FileTable}
      → filealloc s.table ≡ (some i, t)
      → Step s (record { table = t; held = i ∷ s.held })
  full : {t : FileTable} → filealloc s.table ≡ (none, t) → Step s (record s { table = t })
  dups :
      {i : ℕ} {t : FileTable}
      → 0 < count i s.held
      → filedup i s.table ≡ some t
      → Step s (record { table = t; held = i ∷ s.held })
  closes :
      {t : FileTable} {r : Release} (pre : List ℕ) (i : ℕ) (post : List ℕ)
      → s.held ≡ pre ++ (i ∷ post)
      → fileclose i s.table ≡ some (t, r)
      → Step s (record { table = t; held = pre ++ post })
  sets :
      {i : ℕ} (f : File)
      → 0 < count i s.held
      → f.ref ≡ (s.table i).ref
      → Step s (record s { table = update s.table i f })

pub data Reach (s₀ : Files) : Files → Type 0 where
  start : Reach s₀ s₀
  later : {s t : Files} → Reach s₀ s → Step s t → Reach s₀ t

pub record Counted (s : Files) : Type 0 where
  pub refs : (i : ℕ) → i < nfile → (s.table i).ref ≡ count i s.held
  pub in_table : (i : ℕ) → 0 < count i s.held → i < nfile

pub count-middle :
    (j : ℕ) (pre : List ℕ) (i : ℕ) (post : List ℕ)
    → count j (pre ++ (i ∷ post))
      ≡ (if j == i then count j (pre ++ post) + 1 else count j (pre ++ post))
unfolding count
count-middle j [] i post = refl
count-middle j (x ∷ pre) i post = elim (Bool-cases (j == x)) [
  | inl a ↦ elim (Bool-cases (j == i)) [
    | inl b ↦ ground (arith, a, b, count-middle j pre i post)
    | inr b ↦ ground (arith, a, b, count-middle j pre i post)
  ]
  | inr a ↦ elim (Bool-cases (j == i)) [
    | inl b ↦ ground (arith, a, b, count-middle j pre i post)
    | inr b ↦ ground (arith, a, b, count-middle j pre i post)
  ]
]

data Found (i k : ℕ) (t : FileTable) : Option ℕ → Type 0 where
  found : {j : ℕ} → j < i + k → (t j).ref ≡ 0 → Found i k t (some j)
  missing : ((m : ℕ) → i ≤ m → m < i + k → (t m).ref ≢ 0) → Found i k t none

find_file-Found : (k i : ℕ) (t : FileTable) → Found i k t (find_file k i t)
unfolding find_file
find_file-Found zero i t = missing (λ m le lt. absurd (omega arith))
find_file-Found (suc k) i t = elim (Bool-cases ((t i).ref == 0)) [
  | inl free ↦ rw free (found (omega arith) (==→eq (t i).ref 0 free))
  | inr used ↦ rw used (widen (==→ne (t i).ref 0 used) (find_file-Found k (i + 1) t))
]
  where
    widen : {o : Option ℕ} → (t i).ref ≢ 0 → Found (i + 1) k t o → Found i (suc k) t o
    widen busy (found lt e) = found (omega arith) e
    widen busy (missing all) = missing (λ m le lt z. elim (Bool-cases (m == i)) [
      | inl here ↦ busy (ap (λ n. (t n).ref) (sym (==→eq m i here)) ∙ z)
      | inr other ↦ all m (omega (tests, ==→ne m i other)) (omega arith) z
    ])

-- What filealloc does.
pub data Allocated (t : FileTable) : Option ℕ × FileTable → Type 0 where
  gives :
      {i : ℕ}
      → i < nfile
      → (t i).ref ≡ 0
      → Allocated t (some i, update t i (record (t i) { ref = 1 }))
  fails : ((m : ℕ) → m < nfile → (t m).ref ≢ 0) → Allocated t (none, t)

pub filealloc-Allocated : (t : FileTable) → Allocated t (filealloc t)
unfolding filealloc
filealloc-Allocated t = of (find_file nfile 0 t) refl (find_file-Found nfile 0 t)
  where
    of : (o : Option ℕ) → find_file nfile 0 t ≡ o → Found 0 nfile t o → Allocated t (filealloc t)
    of (some i) e (found lt z) = rw (filealloc, e) (gives lt z)
    of none e (missing all) = rw (filealloc, e) (fails (λ m lt. all m (omega arith) (omega arith)))

ref-update :
    (t : FileTable) (i j : ℕ) (f : File)
    → (update t i f j).ref ≡ (if j == i then f.ref else (t j).ref)
ref-update t i j f = elim (Bool-cases (j == i)) [ inl e ↦ rw e refl | inr e ↦ rw e refl ]

-- A change of one count, with the references that stand for it.
pub Counted-update :
    {s : Files} (i : ℕ) (f : File) (held : List ℕ)
    → Counted s
    → i < nfile
    → f.ref ≡ count i held
    → ((j : ℕ) → j ≢ i → count j held ≡ count j s.held)
    → Counted (record { table = update s.table i f; held = held })
Counted-update {s} i f held d lt here rest = record {
  refs = λ j l. ref-update s.table i j f ∙ elim (Bool-cases (j == i)) [
    | inl e ↦ rw e (here ∙ ap (λ n. count n held) (sym (==→eq j i e)))
    | inr e ↦ rw e (d.refs j l ∙ sym (rest j (==→ne j i e)))
  ];
  in_table = λ j pos. elim (Bool-cases (j == i)) [
    | inl e ↦ omega (tests, lt)
    | inr e ↦ d.in_table j (omega (arith, rest j (==→ne j i e)))
  ];
}

pub count_self : (i : ℕ) (held : List ℕ) → count i (i ∷ held) ≡ count i held + 1
unfolding count
count_self i held = rw (eq→== i i refl) refl

pub count_other : (j i : ℕ) (held : List ℕ) → j ≢ i → count j (i ∷ held) ≡ count j held
unfolding count
count_other j i held ne = rw (ne→== j i ne) refl

pub filedup_at :
    (i : ℕ) (t : FileTable)
    → 0 < (t i).ref
    → filedup i t ≡ some (update t i (record (t i) { ref = (t i).ref + 1 }))
unfolding filedup
filedup_at i t pos = let go : ltb (t i).ref 1 ≡ false = ground arith in rw go refl

pub fileclose_more :
    (i : ℕ) (t : FileTable)
    → 1 < (t i).ref
    → fileclose i t ≡ some (update t i (record (t i) { ref = (t i).ref - 1 }), nothing)
unfolding fileclose
fileclose_more i t pos =
    let go : ltb (t i).ref 1 ≡ false = ground arith in
    let more : ltb 0 ((t i).ref - 1) ≡ true = ground arith in rw (go, more) refl

pub fileclose_last :
    (i : ℕ) (t : FileTable)
    → (t i).ref ≡ 1
    → fileclose i t ≡ some (update t i (record (t i) { ref = 0; type = fd_none }), release (t i))
unfolding fileclose
fileclose_last i t one =
    let go : ltb (t i).ref 1 ≡ false = ground arith in
    let last : ltb 0 ((t i).ref - 1) ≡ false = ground arith in rw (go, last) refl
