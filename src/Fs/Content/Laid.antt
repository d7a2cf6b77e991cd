-- ===== src/Fs/Content/Laid.antt =====
-- How the blocks of one file lie on the disk, and what balloc and writes do to that. f gives the
-- file's blocks, 0 for none, and x is its indirect block.
use cmpt.Prelude.{
  ℕ, ◌*◌, ◌/◌, ◌%◌, ◌<◌, ◌≡◌, ◌≢◌, refl, ◌∙◌, sym, ap, subst, arith, false, ◌==◌, if◌then◌else◌,
  update, update-ne, update_self, Bool-cases, inl, inr, ◌⊎◌, ==→eq, ==→ne, ne→==,
}
use cmpt.Disk.{Block, Disk}
use cmpt.Fs.{SuperBlock, bsize, maxfile}
use cmpt.Fs.Bitmap.Map.{used}
use cmpt.Fs.Bitmap.Alloc.{alloc_view}
use cmpt.Fs.Bitmap.Free.{Formatted, alloc_view-Formatted}
use cmpt.Fs.Content.Data.{
  IsData, IsOpen, alloc_view_kept, alloc_view_new, IsData-alloc_view, IsData-new, new_ne,
  IsData-write, Formatted-write,
}

pub record LaidBy (v : Disk) (sb : SuperBlock) (f : ℕ → ℕ) (x : ℕ) : Type 0 where
  pub formatted : Formatted v sb
  pub data_block : (n : ℕ) → n < maxfile → f n ≢ 0 → IsData v sb (f n)
  pub index_block : x ≢ 0 → IsData v sb x
  pub apart : (n m : ℕ) → n < maxfile → m < maxfile → f n ≢ 0 → f n ≡ f m → n ≡ m
  pub index_apart : (n : ℕ) → n < maxfile → f n ≢ 0 → f n ≢ x

-- A data block of another file, or of none
pub record Outside (v : Disk) (sb : SuperBlock) (f : ℕ → ℕ) (x d : ℕ) : Type 0 where
  pub is_data : IsData v sb d
  pub no_block : (n : ℕ) → n < maxfile → f n ≢ d
  pub no_index : x ≢ d

-- The file's byte off, 0 where there is no block
abbrev pub bytes_at : Disk → (ℕ → ℕ) → ℕ → ℕ
bytes_at v f off = if f (off / bsize) == 0 then 0 else v (f (off / bsize)) (off % bsize)

pub bytes_at_none : (v : Disk) (f : ℕ → ℕ) (off : ℕ) → f (off / bsize) ≡ 0 → bytes_at v f off ≡ 0
bytes_at_none v f off e = rw e refl

pub bytes_at_some :
    (v : Disk) (f : ℕ → ℕ) (off : ℕ)
    → f (off / bsize) ≢ 0
    → bytes_at v f off ≡ v (f (off / bsize)) (off % bsize)
bytes_at_some v f off ne = rw (ne→== (f (off / bsize)) 0 ne) refl

pub update_cases :
    (f : ℕ → ℕ) (k b n : ℕ) → ((n ≡ k) × (update f k b n ≡ b)) ⊎ ((n ≢ k) × (update f k b n ≡ f n))
update_cases f k b n = elim (Bool-cases (n == k)) [
  | inl e ↦ inl (==→eq n k e, update_self f k b n (==→eq n k e))
  | inr e ↦ inr (==→ne n k e, update-ne f k b n (==→ne n k e))
]

-- The byte is the same where the file's block is, and the block's bytes are.
pub bytes_at-kept :
    (v w : Disk) (f : ℕ → ℕ) (off : ℕ)
    → (f (off / bsize) ≢ 0 → w (f (off / bsize)) ≡ v (f (off / bsize)))
    → bytes_at w f off ≡ bytes_at v f off
bytes_at-kept v w f off same = elim (Bool-cases (f (off / bsize) == 0)) [
  | inl e ↦ rw e refl
  | inr e ↦ rw e (ap (λ (a : Block). a (off % bsize)) (same (==→ne (f (off / bsize)) 0 e)))
]

-- balloc of block b
module _ {v : Disk} {sb : SuperBlock} {f : ℕ → ℕ} {x b : ℕ} (l : LaidBy v sb f x) (lt : b < sb.size)
    (free : used v sb b ≡ false) where
  fresh : IsData (alloc_view v sb b) sb b
  fresh = IsData-new l.formatted lt free

  old : (d : ℕ) → IsData v sb d → IsData (alloc_view v sb b) sb d
  old = IsData-alloc_view l.formatted lt free

  block_ne : (n : ℕ) → n < maxfile → b ≢ f n
  block_ne n ln e =
      new_ne l.formatted lt free (f n) (l.data_block n ln (λ z. fresh.no_zero (e ∙ z))) e

  index_ne : b ≢ x
  index_ne e = new_ne l.formatted lt free x (l.index_block (λ z. fresh.no_zero (e ∙ z))) e

  -- as the k-th block of the file
  pub LaidBy-add_block : (k : ℕ) → LaidBy (alloc_view v sb b) sb (update f k b) x
  LaidBy-add_block k = record {
    formatted = alloc_view-Formatted v sb b l.formatted lt free;
    data_block = λ n ln ne. elim (update_cases f k b n) [
      | inl (_, q) ↦ subst (IsData (alloc_view v sb b) sb) (sym q) fresh
      | inr (_, q) ↦
          subst (IsData (alloc_view v sb b) sb) (sym q)
            (old (f n) (l.data_block n ln (λ z. ne (q ∙ z))))
    ];
    index_block = λ ne. old x (l.index_block ne);
    apart = λ n m ln lm ne same. elim (update_cases f k b n) [
      | inl (e, q) ↦ elim (update_cases f k b m) [
        | inl (e', _) ↦ e ∙ sym e'
        | inr (_, q') ↦ absurd (block_ne m lm (sym q ∙ same ∙ q'))
      ]
      | inr (_, q) ↦ elim (update_cases f k b m) [
        | inl (_, q') ↦ absurd (block_ne n ln (sym (sym q ∙ same ∙ q')))
        | inr (_, q') ↦ l.apart n m ln lm (λ z. ne (q ∙ z)) (sym q ∙ same ∙ q')
      ]
    ];
    index_apart = λ n ln ne e. elim (update_cases f k b n) [
      | inl (_, q) ↦ index_ne (sym q ∙ e)
      | inr (_, q) ↦ l.index_apart n ln (λ z. ne (q ∙ z)) (sym q ∙ e)
    ];
  }

  -- as its indirect block
  pub LaidBy-add_index : LaidBy (alloc_view v sb b) sb f b
  LaidBy-add_index = record {
    formatted = alloc_view-Formatted v sb b l.formatted lt free;
    data_block = λ n ln ne. old (f n) (l.data_block n ln ne);
    index_block = λ _. fresh;
    apart = l.apart;
    index_apart = λ n ln _ e. block_ne n ln (sym e);
  }

  pub bytes_at-add_index :
      (off : ℕ) → off < maxfile * bsize → bytes_at (alloc_view v sb b) f off ≡ bytes_at v f off
  bytes_at-add_index off lo = bytes_at-kept v (alloc_view v sb b) f off (λ ne.
      alloc_view_kept l.formatted lt free (f (off / bsize))
        (l.data_block (off / bsize) (omega arith) ne))

  pub bytes_at-add_block :
      (k : ℕ)
      → f k ≡ 0
      → (off : ℕ) → off < maxfile * bsize
      → bytes_at (alloc_view v sb b) (update f k b) off ≡ bytes_at v f off
  bytes_at-add_block k none off lo = elim (update_cases f k b (off / bsize)) [
    | inl (e, q) ↦
        rw (q, ne→== b 0 fresh.no_zero)
          (ap (λ (a : Block). a (off % bsize)) (alloc_view_new l.formatted lt free)
            ∙ sym (bytes_at_none v f off (ap f e ∙ none)))
    | inr (_, q) ↦ rw q (bytes_at-add_index off lo)
  ]

  pub Outside-add_block :
      (k d : ℕ)
      → Outside v sb f x d
      → Outside (alloc_view v sb b) sb (update f k b) x d × (alloc_view v sb b d ≡ v d)
  Outside-add_block k d o = (
    record {
      is_data = old d o.is_data;
      no_block = λ n ln e. elim (update_cases f k b n) [
        | inl (_, q) ↦ new_ne l.formatted lt free d o.is_data (sym q ∙ e)
        | inr (_, q) ↦ o.no_block n ln (sym q ∙ e)
      ];
      no_index = o.no_index;
    },
    alloc_view_kept l.formatted lt free d o.is_data,
  )

  pub Outside-add_index :
      (d : ℕ)
      → Outside v sb f x d
      → Outside (alloc_view v sb b) sb f b d × (alloc_view v sb b d ≡ v d)
  Outside-add_index d o = (
    record {
      is_data = old d o.is_data;
      no_block = o.no_block;
      no_index = new_ne l.formatted lt free d o.is_data;
    },
    alloc_view_kept l.formatted lt free d o.is_data,
  )

-- A write to block y
module _ {v : Disk} {sb : SuperBlock} {f : ℕ → ℕ} {x y : ℕ} (a : Block) (l : LaidBy v sb f x)
    (i : IsOpen sb y) where
  pub LaidBy-write : ((o : ℕ) → a o < 256) → LaidBy (update v y a) sb f x
  LaidBy-write bytes = record {
    formatted = Formatted-write v a i bytes l.formatted;
    data_block = λ n ln ne. IsData-write v a i (f n) (l.data_block n ln ne);
    index_block = λ ne. IsData-write v a i x (l.index_block ne);
    apart = l.apart;
    index_apart = l.index_apart;
  }

  pub Outside-write :
      (d : ℕ)
      → d ≢ y
      → Outside v sb f x d
      → Outside (update v y a) sb f x d × (update v y a d ≡ v d)
  Outside-write d ne o = (
    record {
      is_data = IsData-write v a i d o.is_data;
      no_block = o.no_block;
      no_index = o.no_index;
    },
    update-ne v y a d ne,
  )

-- A write to the file's block k
pub bytes_at-write :
    {v : Disk} {sb : SuperBlock} {f : ℕ → ℕ} {x : ℕ} (a : Block) (k : ℕ)
    → LaidBy v sb f x
    → k < maxfile
    → f k ≢ 0
    → (off : ℕ) → off < maxfile * bsize
    → bytes_at (update v (f k) a) f off
      ≡ (if off / bsize == k then a (off % bsize) else bytes_at v f off)
bytes_at-write {v} {f = f} a k l lk ne off lo = elim (Bool-cases (off / bsize == k)) [
  | inl e ↦
      let q : f (off / bsize) ≡ f k = ap f (==→eq (off / bsize) k e) in
      rw (e, ne→== (f (off / bsize)) 0 (λ z. ne (sym q ∙ z)))
        (ap (λ (c : Block). c (off % bsize)) (update_self v (f k) a (f (off / bsize)) q))
  | inr e ↦ rw e (
      bytes_at-kept v (update v (f k) a) f off (λ nz.
        update-ne v (f k) a (f (off / bsize))
          (λ q. ==→ne (off / bsize) k e (l.apart (off / bsize) k (omega arith) lk nz q))))
]
