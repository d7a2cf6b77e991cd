-- ===== src/Fs/Content/Writing.antt =====
-- The loop of writei puts the bytes of src into the file.
use cmpt.Prelude.{
  ℕ, ◌+◌, ◌-◌, ◌*◌, ◌/◌, ◌%◌, ◌<◌, ◌≤◌, ◌≡◌, ◌≢◌, refl, ◌∙◌, sym, ap, subst, fun_ext, arith, true,
  false, ◌==◌, ltb, leb, ◌&&◌, if◌then◌else◌, update, update-ne, Bool-cases, inl, inr, ==→eq, ==→ne,
}
use cmpt.Disk.{Block, Disk, word}
use cmpt.Fs.{State, bsize, ndirect, maxfile}
use cmpt.Fs.Content.{blit}
use cmpt.Fs.Content.Data.{IsOpen, IsData-IsOpen}
use cmpt.Fs.Content.Laid.{LaidBy, Outside, bytes_at, bytes_at-write, LaidBy-write, Outside-write}
use cmpt.Fs.Content.Growth.{block_of, LaidAt}
use cmpt.Fs.Content.Mapping.{Laid, Extends}
use cmpt.Fs.Content.Reading.{content}

-- The content of inode ip becomes g; its other fields, the other inodes and the data blocks
-- outside the file stay, and no block leaves the file.
pub record Changed (ip : ℕ) (g : ℕ → ℕ) (s t : State) : Type 0 where
  pub sb_kept : t.sb ≡ s.sb
  pub others : (j : ℕ) → j ≢ ip → t.icache j ≡ s.icache j
  pub fields : record (t.icache ip) { addrs = λ _. 0 } ≡ record (s.icache ip) { addrs = λ _. 0 }
  pub laid : LaidAt t.view s.sb (t.icache ip).addrs
  pub bytes : (o : ℕ) → o < maxfile * bsize → content t ip o ≡ g o
  pub present :
      (n : ℕ)
      → block_of s.view (s.icache ip).addrs n ≢ 0
      → block_of t.view (t.icache ip).addrs n ≢ 0
  pub outside :
      (d : ℕ)
      → Outside s.view s.sb (block_of s.view (s.icache ip).addrs) ((s.icache ip).addrs ndirect) d
      → Outside t.view s.sb (block_of t.view (t.icache ip).addrs) ((t.icache ip).addrs ndirect) d
        × (t.view d ≡ s.view d)

pub Changed-Laid : {ip : ℕ} {g : ℕ → ℕ} {s t : State} → Changed ip g s t → Laid t ip
Changed-Laid {ip} {g} {s} {t} c =
    subst (λ sb. LaidAt t.view sb (t.icache ip).addrs) (sym c.sb_kept) c.laid

pub Extends-Changed : {ip : ℕ} {s t : State} → Extends ip s t → Changed ip (content s ip) s t
Extends-Changed e = record {
  sb_kept = e.sb_kept;
  others = e.others;
  fields = e.fields;
  laid = e.grows.laid;
  bytes = e.grows.content;
  present = e.grows.present;
  outside = e.grows.outside;
}

pub Changed-cong :
    {ip : ℕ} {g h : ℕ → ℕ} {s t : State}
    → Changed ip g s t
    → ((o : ℕ) → o < maxfile * bsize → g o ≡ h o)
    → Changed ip h s t
Changed-cong c same = record {
  sb_kept = c.sb_kept;
  others = c.others;
  fields = c.fields;
  laid = c.laid;
  bytes = λ o lo. c.bytes o lo ∙ same o lo;
  present = c.present;
  outside = c.outside;
}

pub Changed-trans :
    {ip : ℕ} {g h : ℕ → ℕ} {s t u : State} → Changed ip g s t → Changed ip h t u → Changed ip h s u
Changed-trans {ip} {s = s} {t} {u} c c' = record {
  sb_kept = c'.sb_kept ∙ c.sb_kept;
  others = λ j ne. c'.others j ne ∙ c.others j ne;
  fields = c'.fields ∙ c.fields;
  laid = subst (λ sb. LaidAt u.view sb (u.icache ip).addrs) c.sb_kept c'.laid;
  bytes = c'.bytes;
  present = λ n p. c'.present n (c.present n p);
  outside = λ d o.
      let (o', e) = c.outside d o in
      let (o'', e') =
        subst
          (λ sb.
            (d : ℕ)
            → Outside t.view sb (block_of t.view (t.icache ip).addrs) ((t.icache ip).addrs ndirect)
                d
            → Outside u.view sb (block_of u.view (u.icache ip).addrs) ((u.icache ip).addrs ndirect)
                d
              × (u.view d ≡ t.view d))
          c.sb_kept c'.outside d o' in
      (o'', e' ∙ e);
}

-- A write to a block that is not the indirect one leaves the file's blocks where they are.
pub block_of-write :
    (v : Disk) (addrs : ℕ → ℕ) (y : ℕ) (a : Block)
    → (addrs ndirect ≢ 0 → addrs ndirect ≢ y)
    → block_of (update v y a) addrs ≡ block_of v addrs
block_of-write v addrs y a ne = fun_ext (λ m. elim (Bool-cases (addrs ndirect == 0)) [
  | inl e ↦ rw e refl
  | inr e ↦ rw e (
      ap (λ (b : Block). if ltb m ndirect then addrs m else word b (m - ndirect))
        (update-ne v y a (addrs ndirect) (ne (==→ne (addrs ndirect) 0 e))))
])

-- One log_write of the k-th block of the file
pub write_block :
    (t : State) (ip k b : ℕ) (a : Block)
    → Laid t ip
    → k < maxfile
    → block_of t.view (t.icache ip).addrs k ≡ b
    → b ≢ 0
    → ((o : ℕ) → a o < 256)
    → Changed ip
        (λ o. if o / bsize == k then a (o % bsize) else content t ip o)
        t
        (record t { view = update t.view b a })
write_block t ip k b a l lk here real bytes = record {
  sb_kept = refl;
  others = λ j ne. refl;
  fields = refl;
  laid =
      subst (λ f. LaidBy (update t.view b a) t.sb f (addrs ndirect)) (sym kept)
        (LaidBy-write a l writable bytes);
  bytes = λ o lo.
      ap (λ (f : ℕ → ℕ). bytes_at (update t.view b a) f o) kept
      ∙ subst
          (λ c.
            bytes_at (update t.view c a) (block_of t.view addrs) o
            ≡ (if o / bsize == k then a (o % bsize) else content t ip o))
          here (bytes_at-write a k l lk there o lo);
  present = λ n p z. p (sym (ap (λ (f : ℕ → ℕ). f n) kept) ∙ z);
  outside = λ d o.
      let (o', e) = Outside-write a l writable d (λ z. o.no_block k lk (here ∙ sym z)) o in
      (subst (λ f. Outside (update t.view b a) t.sb f (addrs ndirect) d) (sym kept) o', e);
}
  where
    addrs : ℕ → ℕ
    addrs = (t.icache ip).addrs

    there : block_of t.view addrs k ≢ 0
    there z = real (sym here ∙ z)

    writable : IsOpen t.sb b
    writable = subst (IsOpen t.sb) here (IsData-IsOpen (l.data_block k lk there))

    kept : block_of (update t.view b a) addrs ≡ block_of t.view addrs
    kept = block_of-write t.view addrs b a (λ _ z. l.index_apart k lk there (here ∙ sym z))

-- The bytes of a round, in the block and in the file
pub blit_round :
    (c a : ℕ → ℕ) (off m : ℕ) (src : ℕ → ℕ) (tot o : ℕ)
    → off % bsize + m ≤ bsize
    → ((o / bsize ≡ off / bsize) → c o ≡ a (o % bsize))
    → (if o / bsize == off / bsize then blit a (off % bsize) m src tot (o % bsize) else c o)
      ≡ blit c off m src tot o
blit_round c a off m src tot o fit same = elim (Bool-cases (o / bsize == off / bsize)) [
  | inl e ↦
      let q = ==→eq (o / bsize) (off / bsize) e in
      elim (Bool-cases (leb off o && ltb o (off + m))) [
        | inl i ↦
            let j : (leb (off % bsize) (o % bsize) && ltb (o % bsize) (off % bsize + m)) ≡ true =
              ground (arith, i, q) in
            let r : o % bsize - off % bsize ≡ o - off = ground (arith, i, q) in rw (e, i, j, r) refl
        | inr i ↦
            let j : (leb (off % bsize) (o % bsize) && ltb (o % bsize) (off % bsize + m)) ≡ false =
              ground (arith, i, q) in
            rw (e, i, j) (sym (same q))
      ]
  | inr e ↦
      let ne = ==→ne (o / bsize) (off / bsize) e in
      let i : (leb off o && ltb o (off + m)) ≡ false = ground (arith, ne) in rw (e, i) refl
]

pub blit_join :
    (c : ℕ → ℕ) (off m left : ℕ) (src : ℕ → ℕ) (tot o : ℕ)
    → m ≤ left
    → blit (blit c off m src tot) (off + m) (left - m) src (tot + m) o ≡ blit c off left src tot o
blit_join c off m left src tot o le = elim (Bool-cases (ltb o (off + m))) [
  | inl e ↦
      let i : (leb (off + m) o && ltb o (off + m + (left - m))) ≡ false = ground (arith, e) in
      let j : (leb off o && ltb o (off + m)) ≡ (leb off o && ltb o (off + left)) =
        ground (arith, e) in
      rw (i, j) refl
  | inr e ↦
      let i : (leb (off + m) o && ltb o (off + m + (left - m)))
          ≡ (leb off o && ltb o (off + left)) =
        ground (arith, e) in
      let j : (leb off o && ltb o (off + m)) ≡ false = ground (arith, e) in
      let r : tot + m + (o - (off + m)) ≡ tot + (o - off) = ground (arith, e) in rw (i, j, r) refl
]
