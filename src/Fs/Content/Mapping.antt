-- ===== src/Fs/Content/Mapping.antt =====
-- bmap finds or makes a block of a file, and changes no content.
use cmpt.Prelude.{
  ℕ, ◌-◌, ◌<◌, ◌≤◌, ◌≡◌, ◌≢◌, refl, ◌∙◌, sym, ap, subst, arith, false, ◌==◌, ltb, update, update-ne,
  update_self, Bool-cases, inl, inr, ==→eq, ==→ne, ne→==, le→ltb, lt→ltb, ltb→lt, ltb→le, tests,
}
use cmpt.Disk.{Disk, word}
use cmpt.Fs.{State, Inode, Run, done, and_then, ndirect, nindirect, maxfile}
use cmpt.Fs.Rules.{Ends, ends, bind, mono}
use cmpt.Fs.Bitmap.{balloc}
use cmpt.Fs.Bitmap.Map.{used}
use cmpt.Fs.Bitmap.Alloc.{UsedBelow, allocated, Full, alloc_view, balloc-Allocated}
use cmpt.Fs.Content.{addr_of, indirect, bmap}
use cmpt.Fs.Content.Data.{IsData-new}
use cmpt.Fs.Content.Growth.{
  block_of, LaidAt, Grown, Grown-refl, Grown-trans, zeros_direct, zeros_index, zeros_entry, entered,
}

abbrev pub Laid : State → ℕ → Type 0
Laid s ip = LaidAt s.view s.sb (s.icache ip).addrs

-- What a call that only gives blocks to inode ip leaves as it is
pub record Extends (ip : ℕ) (s t : State) : Type 0 where
  pub sb_kept : t.sb ≡ s.sb
  pub others : (j : ℕ) → j ≢ ip → t.icache j ≡ s.icache j
  pub fields : record (t.icache ip) { addrs = λ _. 0 } ≡ record (s.icache ip) { addrs = λ _. 0 }
  pub grows : Grown s.sb s.view (s.icache ip).addrs t.view (t.icache ip).addrs

pub Extends-refl : {ip : ℕ} {s : State} → Laid s ip → Extends ip s s
Extends-refl l = record {
  sb_kept = refl;
  others = λ j ne. refl;
  fields = refl;
  grows = Grown-refl l;
}

pub Extends-trans : {ip : ℕ} {s t u : State} → Extends ip s t → Extends ip t u → Extends ip s u
Extends-trans {ip} {s} {t} {u} e e' = record {
  sb_kept = e'.sb_kept ∙ e.sb_kept;
  others = λ j ne. e'.others j ne ∙ e.others j ne;
  fields = e'.fields ∙ e.fields;
  grows = Grown-trans e.grows (
      subst (λ sb. Grown sb t.view (t.icache ip).addrs u.view (u.icache ip).addrs) e.sb_kept
        e'.grows);
}

pub Extends-Laid : {ip : ℕ} {s t : State} → Extends ip s t → Laid t ip
Extends-Laid {ip} {s} {t} e =
    subst (λ sb. LaidAt t.view sb (t.icache ip).addrs) (sym e.sb_kept) e.grows.laid

-- The end of bmap with block b
pub record Got (ip bn : ℕ) (s : State) (b : ℕ) (t : State) : Type 0 where
  pub extends : Extends ip s t
  pub here : block_of t.view (t.icache ip).addrs bn ≡ b
  pub real : b ≢ 0
  pub fixed : block_of s.view (s.icache ip).addrs bn ≢ 0 → t ≡ s

-- No block was free.
abbrev pub NoSpace : ℕ → State → State → Type 0
NoSpace ip s t = Extends ip s t × UsedBelow t t.sb.size

abbrev placed : State → ℕ → ℕ → ℕ → State
placed s ip n b = record s {
  view = alloc_view s.view s.sb b;
  icache = update s.icache ip (record (s.icache ip) { addrs = update (s.icache ip).addrs n b });
}

module _ (s : State) (ip : ℕ) (l : Laid s ip) where
  no_space : (t : State) → Full s t → NoSpace ip s t
  no_space t (e, all) = subst (λ u. NoSpace ip s u) (sym e) (Extends-refl l, all)

  -- What follows balloc
  after_balloc :
      {P : ℕ → State → Type 0} (k : ℕ → State → Run ℕ)
      → ((b : ℕ)
          → b < s.sb.size
          → used s.view s.sb b ≡ false
          → Ends P (NoSpace ip s) (k b (allocated s b)))
      → Ends P (NoSpace ip s) (and_then (balloc s) k)
  after_balloc {P} k next = bind (mono (balloc-Allocated s) (λ b t a. a) no_space) (λ b t a.
      subst (λ u. Ends P (NoSpace ip s) (k b u)) (sym a.now) (next b a.in_size a.was_free))

  placed_addrs : (n b : ℕ) → ((placed s ip n b).icache ip).addrs ≡ update (s.icache ip).addrs n b
  placed_addrs n b = ap (λ (i : Inode). i.addrs) (update_self s.icache ip _ ip refl)

  placed-Extends :
      (n b : ℕ)
      → Grown s.sb s.view
          (s.icache ip).addrs
          (alloc_view s.view s.sb b)
          (update (s.icache ip).addrs n b)
      → Extends ip s (placed s ip n b)
  placed-Extends n b g = record {
    sb_kept = refl;
    others = λ j ne. update-ne s.icache ip _ j ne;
    fields = ap (λ (i : Inode). record i { addrs = λ _. 0 }) (update_self s.icache ip _ ip refl);
    grows =
        subst (λ a. Grown s.sb s.view (s.icache ip).addrs (alloc_view s.view s.sb b) a)
          (sym (placed_addrs n b)) g;
  }

  addr_of_new :
      {P : ℕ → State → Type 0} (n : ℕ)
      → (s.icache ip).addrs n ≡ 0
      → ((b : ℕ) → b < s.sb.size → used s.view s.sb b ≡ false → P b (placed s ip n b))
      → Ends P (NoSpace ip s) (addr_of ip n s)
  unfolding addr_of
  addr_of_new n none next = rw none (after_balloc _ (λ b lt free. ends (next b lt free)))

  addr_of_old :
      (n : ℕ) → (s.icache ip).addrs n ≢ 0 → addr_of ip n s ≡ done ((s.icache ip).addrs n) s
  unfolding addr_of
  addr_of_old n ne = rw (ne→== ((s.icache ip).addrs n) 0 ne) refl

  addr_of-direct : (bn : ℕ) → bn < ndirect → Ends (Got ip bn s) (NoSpace ip s) (addr_of ip bn s)
  addr_of-direct bn lt = elim (Bool-cases ((s.icache ip).addrs bn == 0)) [
    | inl e ↦
        let none = ==→eq ((s.icache ip).addrs bn) 0 e in
        addr_of_new bn none (λ b lb free.
          let (g, q) = zeros_direct s.view s.sb (s.icache ip).addrs b l lb free bn lt none in
          record {
            extends = placed-Extends bn b g;
            here = ap (λ a. block_of (alloc_view s.view s.sb b) a bn) (placed_addrs bn b) ∙ q;
            real = (IsData-new l.formatted lb free).no_zero;
            fixed = λ ne. absurd (ne (rw (lt→ltb bn ndirect lt) none));
          })
    | inr e ↦
        let ne = ==→ne ((s.icache ip).addrs bn) 0 e in
        rw (addr_of_old bn ne) (
          ends (record {
            extends = Extends-refl l;
            here = rw (lt→ltb bn ndirect lt) refl;
            real = ne;
            fixed = λ _. refl;
          }))
  ]

  -- The indirect block, found or made
  addr_of-index :
      Ends
        (λ x t.
          Extends ip s t
          × ((t.icache ip).addrs ndirect ≡ x)
          × (x ≢ 0)
          × ((s.icache ip).addrs ndirect ≢ 0 → t ≡ s))
        (NoSpace ip s)
        (addr_of ip ndirect s)
  addr_of-index = elim (Bool-cases ((s.icache ip).addrs ndirect == 0)) [
    | inl e ↦
        let none = ==→eq ((s.icache ip).addrs ndirect) 0 e in
        addr_of_new ndirect none (λ b lb free. (
          placed-Extends ndirect b (zeros_index s.view s.sb (s.icache ip).addrs b l lb free none),
          ap (λ (a : ℕ → ℕ). a ndirect) (placed_addrs ndirect b)
              ∙ update_self (s.icache ip).addrs ndirect b ndirect refl,
          (IsData-new l.formatted lb free).no_zero,
          λ ne. absurd (ne none),
        ))
    | inr e ↦
        let ne = ==→ne ((s.icache ip).addrs ndirect) 0 e in
        rw (addr_of_old ndirect ne) (ends (Extends-refl l, refl, ne, λ _. refl))
  ]

  module _ (bn : ℕ) (ge : ndirect ≤ bn) (lt : bn < maxfile)
      (ne : (s.icache ip).addrs ndirect ≢ 0) where
    -- The block is the one that its word in the indirect block names.
    block_of-word :
        (v : Disk)
        → block_of v (s.icache ip).addrs bn ≡ word (v ((s.icache ip).addrs ndirect)) (bn - ndirect)
    block_of-word v = rw (le→ltb bn ndirect ge, ne→== ((s.icache ip).addrs ndirect) 0 ne) refl

    indirect-Got :
        Ends (Got ip bn s) (NoSpace ip s) (indirect ((s.icache ip).addrs ndirect) (bn - ndirect) s)
    unfolding indirect
    indirect-Got =
        elim (Bool-cases (word (s.view ((s.icache ip).addrs ndirect)) (bn - ndirect) == 0)) [
          | inl e ↦
              let none = ==→eq (word (s.view ((s.icache ip).addrs ndirect)) (bn - ndirect)) 0 e in
              rw e (
                after_balloc _ (λ b lb free.
                  let (g, q) =
                    zeros_entry s.view s.sb (s.icache ip).addrs b l lb free (bn - ndirect)
                      (omega arith) ne none in
                  ends (record {
                    extends = record {
                      sb_kept = refl;
                      others = λ j _. refl;
                      fields = refl;
                      grows = g;
                    };
                    here =
                        ap
                          (block_of
                            (entered s.view s.sb (s.icache ip).addrs b l lb free (bn - ndirect))
                            (s.icache ip).addrs)
                          (omega arith)
                        ∙ q;
                    real = (IsData-new l.formatted lb free).no_zero;
                    fixed = λ nz. absurd (nz (block_of-word s.view ∙ none));
                  })))
          | inr e ↦ rw e (
              ends (record {
                extends = Extends-refl l;
                here = block_of-word s.view;
                real = ==→ne (word (s.view ((s.icache ip).addrs ndirect)) (bn - ndirect)) 0 e;
                fixed = λ _. refl;
              }))
        ]

-- bmap of a block number below MAXFILE returns the file's block, which is not 0: the one that is
-- there, without a change, or a new one from balloc. The bytes of the file do not change, nor do
-- the other inodes and the data blocks outside the file. Where balloc finds no block, it panics
-- with every block in use.
pub bmap-Got :
    (s : State) (ip bn : ℕ)
    → Laid s ip
    → bn < maxfile
    → Ends (Got ip bn s) (NoSpace ip s) (bmap ip bn s)
unfolding bmap
bmap-Got s ip bn l lt = elim (Bool-cases (ltb bn ndirect)) [
  | inl e ↦ rw e (addr_of-direct s ip l bn (ltb→lt bn ndirect e))
  | inr e ↦
      rw (e, lt→ltb (bn - ndirect) nindirect (omega tests))
        (bind (addr_of-index s ip l) (λ x t post.
          let (ext, at, nz, fixed) = post in rest x t ext at nz fixed (ltb→le bn ndirect e)))
]
  where
    rest :
        (x : ℕ) (t : State)
        → Extends ip s t
        → (t.icache ip).addrs ndirect ≡ x
        → x ≢ 0
        → ((s.icache ip).addrs ndirect ≢ 0 → t ≡ s)
        → ndirect ≤ bn
        → Ends (Got ip bn s) (NoSpace ip s) (indirect x (bn - ndirect) t)
    rest x t ext at nz fixed ge =
        subst (λ y. Ends (Got ip bn s) (NoSpace ip s) (indirect y (bn - ndirect) t)) at
          (mono (indirect-Got t ip (Extends-Laid ext) bn ge lt (λ z. nz (sym at ∙ z)))
            (λ b u g. record {
              extends = Extends-trans ext g.extends;
              here = g.here;
              real = g.real;
              fixed = λ old. kept b u g old;
            })
            (λ u q. (Extends-trans ext q.0, q.1)))
      where
        kept :
            (b : ℕ) (u : State)
            → Got ip bn t b u
            → block_of s.view (s.icache ip).addrs bn ≢ 0
            → u ≡ s
        kept b u g old =
            let there : (s.icache ip).addrs ndirect ≢ 0 =
              λ z. old (rw (le→ltb bn ndirect ge, z) refl) in
            let e : t ≡ s = fixed there in
            g.fixed
              (λ z. old (ap (λ (w : State). block_of w.view (w.icache ip).addrs bn) (sym e) ∙ z))
            ∙ e
