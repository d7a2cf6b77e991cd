-- ===== src/Fs/Content/Growth.antt =====
-- How bmap may change a file: it gains blocks of zeros.
use cmpt.Prelude.{
  ℕ, ◌+◌, ◌-◌, ◌*◌, ◌/◌, ◌<◌, ◌≡◌, ◌≢◌, refl, ◌∙◌, sym, ap, subst, fun_ext, arith, false, ◌==◌, ltb,
  if◌then◌else◌, update, update-ne, update_self, Bool-cases, inl, inr, ==→eq, ==→ne, ne→==, eq→==,
  le→ltb, tests,
}
use cmpt.Disk.{Block, Disk, word, set_word, word-set_word, set_word-lt}
use cmpt.Fs.{SuperBlock, bsize, ndirect, nindirect, maxfile}
use cmpt.Fs.Bitmap.Map.{used}
use cmpt.Fs.Bitmap.Alloc.{alloc_view}
use cmpt.Fs.Content.Data.{IsOpen, alloc_view_kept, alloc_view_new, IsData-IsOpen, size-lt}
use cmpt.Fs.Content.Laid.{
  LaidBy, Outside, bytes_at, bytes_at-kept, LaidBy-add_block, LaidBy-add_index, bytes_at-add_index,
  bytes_at-add_block, Outside-add_block, Outside-add_index, LaidBy-write, Outside-write,
}

-- The n-th block of the file with these addresses, 0 for none
abbrev pub block_of : Disk → (ℕ → ℕ) → ℕ → ℕ
block_of v addrs n =
    if ltb n ndirect
    then addrs n
    else if addrs ndirect == 0
    then 0
    else word (v (addrs ndirect)) (n - ndirect)

abbrev pub LaidAt : Disk → SuperBlock → (ℕ → ℕ) → Type 0
LaidAt v sb addrs = LaidBy v sb (block_of v addrs) (addrs ndirect)

-- The content does not change, nor does a data block outside the file; no block leaves the file.
pub record Grown (sb : SuperBlock) (v : Disk) (addrs : ℕ → ℕ) (w : Disk) (addrs' : ℕ → ℕ)
    : Type 0 where
  pub laid : LaidAt w sb addrs'
  pub content :
      (off : ℕ)
      → off < maxfile * bsize
      → bytes_at w (block_of w addrs') off ≡ bytes_at v (block_of v addrs) off
  pub present : (n : ℕ) → block_of v addrs n ≢ 0 → block_of w addrs' n ≢ 0
  pub outside :
      (d : ℕ)
      → Outside v sb (block_of v addrs) (addrs ndirect) d
      → Outside w sb (block_of w addrs') (addrs' ndirect) d × (w d ≡ v d)

pub Grown-refl :
    {sb : SuperBlock} {v : Disk} {addrs : ℕ → ℕ} → LaidAt v sb addrs → Grown sb v addrs v addrs
Grown-refl l = record {
  laid = l;
  content = λ off lo. refl;
  present = λ n p. p;
  outside = λ d o. (o, refl);
}

pub Grown-trans :
    {sb : SuperBlock} {u v w : Disk} {a b c : ℕ → ℕ}
    → Grown sb u a v b
    → Grown sb v b w c
    → Grown sb u a w c
Grown-trans g h = record {
  laid = h.laid;
  content = λ off lo. h.content off lo ∙ g.content off lo;
  present = λ n p. h.present n (g.present n p);
  outside = λ d o. let (o', e) = g.outside d o in let (o'', e') = h.outside d o' in (o'', e' ∙ e);
}

-- A growth, with the new blocks f and the new indirect block x
grown :
    {sb : SuperBlock} {v w : Disk} {addrs addrs' f : ℕ → ℕ} {x : ℕ}
    → block_of w addrs' ≡ f
    → addrs' ndirect ≡ x
    → LaidBy w sb f x
    → ((off : ℕ) → off < maxfile * bsize → bytes_at w f off ≡ bytes_at v (block_of v addrs) off)
    → ((n : ℕ) → block_of v addrs n ≢ 0 → f n ≢ 0)
    → ((d : ℕ)
        → Outside v sb (block_of v addrs) (addrs ndirect) d
        → Outside w sb f x d × (w d ≡ v d))
    → Grown sb v addrs w addrs'
grown {sb} {v} {w} {addrs} {addrs'} {f} {x} e q l c k o = record {
  laid =
      subst (λ g. LaidBy w sb g (addrs' ndirect)) (sym e) (subst (λ y. LaidBy w sb f y) (sym q) l);
  content = λ off lo. ap (λ (g : ℕ → ℕ). bytes_at w g off) e ∙ c off lo;
  present = λ n p z. k n p (sym (ap (λ (g : ℕ → ℕ). g n) e) ∙ z);
  outside = λ d p.
      let (p', same) = o d p in
      (
        subst (λ g. Outside w sb g (addrs' ndirect) d) (sym e)
            (subst (λ y. Outside w sb f y d) (sym q) p'),
        same,
      );
}

-- A block that was not there takes no other's place.
present-update : (f : ℕ → ℕ) (n b : ℕ) → f n ≡ 0 → (m : ℕ) → f m ≢ 0 → update f n b m ≢ 0
present-update f n b none m p z = elim (Bool-cases (m == n)) [
  | inl e ↦ p (ap f (==→eq m n e) ∙ none)
  | inr e ↦ p (sym (update-ne f n b m (==→ne m n e)) ∙ z)
]

-- balloc of block b for the file
module _ (v : Disk) (sb : SuperBlock) (addrs : ℕ → ℕ) (b : ℕ) (l : LaidAt v sb addrs)
    (lt : b < sb.size) (free : used v sb b ≡ false) where
  index_kept : addrs ndirect ≢ 0 → alloc_view v sb b (addrs ndirect) ≡ v (addrs ndirect)
  index_kept ne = alloc_view_kept l.formatted lt free (addrs ndirect) (l.index_block ne)

  block_of-direct :
      (n : ℕ)
      → n < ndirect
      → block_of (alloc_view v sb b) (update addrs n b) ≡ update (block_of v addrs) n b
  block_of-direct n ln = fun_ext (λ m. elim (Bool-cases (ltb m ndirect)) [
    | inl e ↦ rw e refl
    | inr e ↦
        let q : (ndirect == n) ≡ false = ne→== ndirect n (omega arith) in
        let r : (m == n) ≡ false = ne→== m n (omega tests) in
        elim (Bool-cases (addrs ndirect == 0)) [
          | inl z ↦ rw (e, q, r, z) refl
          | inr z ↦
              rw (e, q, r, z)
                (ap (λ (a : Block). word a (m - ndirect)) (index_kept (==→ne (addrs ndirect) 0 z)))
        ]
  ])

  pub zeros_direct :
      (n : ℕ)
      → n < ndirect
      → addrs n ≡ 0
      → Grown sb v addrs (alloc_view v sb b) (update addrs n b)
        × (block_of (alloc_view v sb b) (update addrs n b) n ≡ b)
  zeros_direct n ln none =
      let here : block_of v addrs n ≡ 0 = ground (arith, none) in
      (
        grown (block_of-direct n ln) (update-ne addrs n b ndirect (omega arith))
            (LaidBy-add_block l lt free n) (bytes_at-add_block l lt free n here)
            (present-update (block_of v addrs) n b here) (Outside-add_block l lt free n),
        ap (λ (g : ℕ → ℕ). g n) (block_of-direct n ln) ∙ update_self (block_of v addrs) n b n refl,
      )

  block_of-index :
      addrs ndirect ≡ 0 → block_of (alloc_view v sb b) (update addrs ndirect b) ≡ block_of v addrs
  unfolding word
  block_of-index none = fun_ext (λ m. elim (Bool-cases (ltb m ndirect)) [
    | inl e ↦ rw (e, ne→== m ndirect (omega tests)) refl
    | inr e ↦
        let zero_block : alloc_view v sb b b ≡ (λ _. 0) = alloc_view_new l.formatted lt free in
        elim (Bool-cases (b == 0)) [
          | inl z ↦ rw (e, none, z) refl
          | inr z ↦ rw (e, none, z) (ap (λ (a : Block). word a (m - ndirect)) zero_block)
        ]
  ])

  pub zeros_index :
      addrs ndirect ≡ 0 → Grown sb v addrs (alloc_view v sb b) (update addrs ndirect b)
  zeros_index none =
      grown (block_of-index none) (update_self addrs ndirect b ndirect refl)
        (LaidBy-add_index l lt free) (bytes_at-add_index l lt free) (λ n p. p)
        (Outside-add_index l lt free)

  -- the view once b is in the indirect block
  abbrev pub entered : ℕ → Disk
  entered k = update (alloc_view v sb b) (addrs ndirect) (set_word (v (addrs ndirect)) k b)

  module _ (k : ℕ) (lk : k < nindirect) (ne : addrs ndirect ≢ 0) where
    block_of-entry : block_of (entered k) addrs ≡ update (block_of v addrs) (k + ndirect) b
    block_of-entry = fun_ext (λ m. elim (Bool-cases (ltb m ndirect)) [
      | inl e ↦ rw (e, ne→== m (k + ndirect) (omega tests)) refl
      | inr e ↦
          let entry : word (entered k (addrs ndirect)) (m - ndirect)
              ≡ (if m - ndirect == k then b else word (v (addrs ndirect)) (m - ndirect)) =
            ap (λ (a : Block). word a (m - ndirect))
              (update_self (alloc_view v sb b) (addrs ndirect) (set_word (v (addrs ndirect)) k b)
                (addrs ndirect) refl)
            ∙ word-set_word (v (addrs ndirect)) k (m - ndirect) b
                (omega (arith, lt, size-lt l.formatted)) in
          rw (e, ne→== (addrs ndirect) 0 ne)
            (entry ∙ elim (Bool-cases (m == k + ndirect)) [
              | inl q ↦ rw (q, eq→== (m - ndirect) k (omega (tests, ==→eq m (k + ndirect) q))) refl
              | inr q ↦ rw (q, ne→== (m - ndirect) k (omega (tests, ==→ne m (k + ndirect) q))) refl
            ])
    ])

    pub zeros_entry :
        word (v (addrs ndirect)) k ≡ 0
        → Grown sb v addrs (entered k) addrs × (block_of (entered k) addrs (k + ndirect) ≡ b)
    zeros_entry none = (
      grown block_of-entry refl
          (LaidBy-write a added writable
            (set_word-lt (v (addrs ndirect)) k b (l.formatted.mapped.bytes (addrs ndirect))))
          (λ off lo.
            bytes_at-kept (alloc_view v sb b) (entered k)
              (update (block_of v addrs) (k + ndirect) b) off
              (λ nz.
                update-ne (alloc_view v sb b) (addrs ndirect) a _
                  (added.index_apart (off / bsize) (omega arith) nz))
            ∙ bytes_at-add_block l lt free (k + ndirect) absent off lo)
          (present-update (block_of v addrs) (k + ndirect) b absent)
          (λ d o.
            let (o', e) = Outside-add_block l lt free (k + ndirect) d o in
            let (o'', e') = Outside-write a added writable d (λ q. o.no_index (sym q)) o' in
            (o'', e' ∙ e)),
      ap (λ (g : ℕ → ℕ). g (k + ndirect)) block_of-entry
          ∙ update_self (block_of v addrs) (k + ndirect) b (k + ndirect) refl,
    )
      where
        a : Block
        a = set_word (v (addrs ndirect)) k b

        added :
            LaidBy
              (alloc_view v sb b)
              sb
              (update (block_of v addrs) (k + ndirect) b)
              (addrs ndirect)
        added = LaidBy-add_block l lt free (k + ndirect)

        writable : IsOpen sb (addrs ndirect)
        writable = IsData-IsOpen (l.index_block ne)

        absent : block_of v addrs (k + ndirect) ≡ 0
        absent =
            let far : ltb (k + ndirect) ndirect ≡ false =
              le→ltb (k + ndirect) ndirect (omega arith) in
            let back : k + ndirect - ndirect ≡ k = omega arith in
            rw (far, ne→== (addrs ndirect) 0 ne, back) none
