-- ===== src/File/Sharing.antt =====
-- Files under any sequence of opens, dups and closes.
use cmpt.Prelude.{
  ℕ, ◌+◌, ◌-◌, ◌<◌, ◌≡◌, ◌≢◌, ◌↔◌, inl, inr, refl, ◌∙◌, sym, ap, subst, arith, Bool, true, false,
  Option, none, some, List, ◌∷◌, ◌++◌, ltb, update, Bool-cases, some_eq, eq→==, ne→==, tests,
}
use cmpt.File.{
  File, FileTable, fd_none, nfile, filealloc, fileclose, Release, nothing, release, fd_pipe,
  fd_inode, close_pipe, put_inode,
}
use cmpt.File.Counts.{
  count, Files, Step, allocates, full, dups, closes, sets, Reach, start, later, Counted,
  count-middle, Allocated, gives, fails, filealloc-Allocated, Counted-update, count_self,
  count_other, filedup_at, fileclose_more, fileclose_last,
}

fileclose-Counted :
    {s : Files} {t : FileTable} {r : Release} (pre : List ℕ) (i : ℕ) (post : List ℕ)
    → s.held ≡ pre ++ (i ∷ post)
    → fileclose i s.table ≡ some (t, r)
    → Counted s
    → Counted (record { table = t; held = pre ++ post })
fileclose-Counted {s} {t} pre i post split e d = elim (Bool-cases (ltb 1 (s.table i).ref)) [
  | inl more ↦
      let f : File = record (s.table i) { ref = (s.table i).ref - 1 } in
      let same : update s.table i f ≡ t =
        ap (λ (x : FileTable × Release). x.0)
          (some_eq (sym (fileclose_more i s.table (omega tests)) ∙ e)) in
      subst (λ u. Counted (record { table = u; held = pre ++ post })) same
        (Counted-update i f (pre ++ post) d lt (omega (arith, one_less, d.refs i lt)) others)
  | inr last ↦
      let f : File = record (s.table i) { ref = 0; type = fd_none } in
      let one : (s.table i).ref ≡ 1 = omega (tests, one_less, d.refs i lt) in
      let same : update s.table i f ≡ t =
        ap (λ (x : FileTable × Release). x.0) (some_eq (sym (fileclose_last i s.table one) ∙ e)) in
      subst (λ u. Counted (record { table = u; held = pre ++ post })) same
        (Counted-update i f (pre ++ post) d lt (omega (arith, one_less, one, d.refs i lt)) others)
]
  where
    one_less : count i s.held ≡ count i (pre ++ post) + 1
    one_less = ap (count i) split ∙ count-middle i pre i post ∙ rw (eq→== i i refl) refl

    lt : i < nfile
    lt = d.in_table i (omega (arith, one_less))

    others : (j : ℕ) → j ≢ i → count j (pre ++ post) ≡ count j s.held
    others j ne = sym (ap (count j) split ∙ count-middle j pre i post ∙ rw (ne→== j i ne) refl)

some-ne_none : (i : ℕ) → some i ≢ none
some-ne_none i e = ground (arith, ap {B = Bool} (λ o. elim o [ none ↦ false | some x ↦ true ]) e)

filealloc-Counted :
    (s : Files) (r : Option ℕ × FileTable)
    → Allocated s.table r
    → Counted s
    → ((i : ℕ) → r.0 ≡ some i → Counted (record { table = r.1; held = i ∷ s.held }))
      × (r.0 ≡ none → r.1 ≡ s.table)
filealloc-Counted s r (gives {i} lt z) d = (
  λ j e.
      subst
        (λ n.
          Counted (record {
            table = update s.table i (record (s.table i) { ref = 1 });
            held = n ∷ s.held;
          }))
        (some_eq e)
        (Counted-update i _ (i ∷ s.held) d lt (omega (arith, count_self i s.held, z, d.refs i lt))
          (λ k ne. count_other k i s.held ne)),
  λ e. absurd (some-ne_none i e),
)
filealloc-Counted s r (fails all) d = (λ j e. absurd (some-ne_none j (sym e)), λ _. refl)

Step-Counted : {s t : Files} → Step s t → Counted s → Counted t
Step-Counted {s} (allocates {i} {t} e) d =
    subst (λ (x : FileTable). Counted (record { table = x; held = i ∷ s.held }))
      (ap (λ (r : Option ℕ × FileTable). r.1) e)
      ((filealloc-Counted s (filealloc s.table) (filealloc-Allocated s.table) d).0 i
        (ap (λ (r : Option ℕ × FileTable). r.0) e))
Step-Counted {s} (full {t} e) d =
    subst (λ (x : FileTable). Counted (record s { table = x }))
      (sym (
          (filealloc-Counted s (filealloc s.table) (filealloc-Allocated s.table) d).1
            (ap (λ (r : Option ℕ × FileTable). r.0) e))
        ∙ ap (λ (r : Option ℕ × FileTable). r.1) e)
      d
Step-Counted {s} (dups {i} {t} pos e) d =
    let lt = d.in_table i pos in
    subst (λ (x : FileTable). Counted (record { table = x; held = i ∷ s.held }))
      (some_eq (sym (filedup_at i s.table (omega (arith, d.refs i lt))) ∙ e))
      (Counted-update i _ (i ∷ s.held) d lt (omega (arith, count_self i s.held, d.refs i lt))
        (λ k ne. count_other k i s.held ne))
Step-Counted (closes pre i post split e) d = fileclose-Counted pre i post split e d
Step-Counted {s} (sets {i} f pos e) d =
    let lt = d.in_table i pos in Counted-update i f s.held d lt (e ∙ d.refs i lt) (λ _ _. refl)

pub Reach-Counted : {s₀ s : Files} → Counted s₀ → Reach s₀ s → Counted s
Reach-Counted d start = d
Reach-Counted d (later r st) = Step-Counted st (Reach-Counted d r)

-- From a table whose counts are the references held, however references are then made, copied and
-- given back: filealloc gives a file of the table that nobody refers to, and fails exactly when
-- every file has a reference.
pub filealloc_exclusive :
    {s₀ s : Files}
    → Counted s₀
    → Reach s₀ s
    → ((i : ℕ) → (filealloc s.table).0 ≡ some i → (i < nfile) × (count i s.held ≡ 0))
      × (((filealloc s.table).0 ≡ none) ↔ ((m : ℕ) → m < nfile → 0 < count m s.held))
filealloc_exclusive {s₀} {s} d r = of (filealloc s.table) (filealloc-Allocated s.table)
  where
    now : Counted s
    now = Reach-Counted d r

    of :
        (a : Option ℕ × FileTable)
        → Allocated s.table a
        → ((i : ℕ) → a.0 ≡ some i → (i < nfile) × (count i s.held ≡ 0))
          × ((a.0 ≡ none) ↔ ((m : ℕ) → m < nfile → 0 < count m s.held))
    of a (gives {i} lt z) = (
      λ j e.
          subst (λ n. (n < nfile) × (count n s.held ≡ 0)) (some_eq e)
            (lt, omega (arith, z, now.refs i lt)),
      (λ e. absurd (some-ne_none i e), λ all. absurd (omega (arith, all i lt, z, now.refs i lt))),
    )
    of a (fails all) = (
      λ j e. absurd (some-ne_none j (sym e)),
      (λ _ m lt. let live = all m lt in omega (arith, live, now.refs m lt), λ _. refl),
    )

-- What is handed on with the last reference to a file: its pipe and whether the end is the
-- writer's, or its inode, or nothing for a file without a type
pub data HandsOn (f : File) : Release → Type 0 where
  of_none : f.type ≡ fd_none → HandsOn f nothing
  of_pipe : f.type ≡ fd_pipe → HandsOn f (close_pipe f.pipe f.writable)
  of_inode : f.type ≡ fd_inode → HandsOn f (put_inode f.ip)

release-HandsOn : (f : File) → HandsOn f (release f)
unfolding release
release-HandsOn f =
    elim f.type
        as (λ y.
          f.type ≡ y
          → HandsOn f (elim y [
            | fd_none ↦ nothing
            | fd_pipe ↦ close_pipe f.pipe f.writable
            | fd_inode ↦ put_inode f.ip
          ])) [ fd_none ↦ λ e. of_none e | fd_pipe ↦ λ e. of_pipe e | fd_inode ↦ λ e. of_inode e ]
      refl

-- In such a table a held reference can be given back: fileclose does not panic. The last reference
-- hands on the end of the pipe or the inode, with the pipe's side or the inode as the file has them,
-- and sets the file's count to 0 and its type to FD_NONE; any other hands on nothing and takes 1
-- from the count. Nothing else of the table changes.
pub fileclose_releases :
    {s₀ s : Files} (i : ℕ)
    → Counted s₀
    → Reach s₀ s
    → 0 < count i s.held
    → (t : FileTable) × (r : Release) × (fileclose i s.table ≡ some (t, r))
      × ((count i s.held ≡ 1)
          → HandsOn (s.table i) r
            × (t ≡ update s.table i (record (s.table i) { ref = 0; type = fd_none })))
      × ((count i s.held ≢ 1)
          → (r ≡ nothing)
            × (t ≡ update s.table i (record (s.table i) { ref = count i s.held - 1 })))
fileclose_releases {s₀} {s} i d r pos =
    let now = Reach-Counted d r in
    let lt = now.in_table i pos in
    let e : (s.table i).ref ≡ count i s.held = now.refs i lt in
    elim (Bool-cases (ltb 1 (s.table i).ref)) [
      | inl more ↦ (
        update s.table i (record (s.table i) { ref = (s.table i).ref - 1 }),
        nothing,
        fileclose_more i s.table (omega tests),
        λ one. absurd (omega tests),
        λ _. (refl, ap (λ n. update s.table i (record (s.table i) { ref = n - 1 })) e),
      )
      | inr last ↦
          let one : (s.table i).ref ≡ 1 = omega tests in
          (
            update s.table i (record (s.table i) { ref = 0; type = fd_none }),
            release (s.table i),
            fileclose_last i s.table one,
            λ _. (release-HandsOn (s.table i), refl),
            λ ne. absurd (omega arith),
          )
    ]
