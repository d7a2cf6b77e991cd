-- ===== src/Fs/Directory.antt =====
-- Directories: files of struct dirent, dirlookup and dirlink. A name is a function from its indices.
use cmpt.Prelude.{
  ℕ, zero, suc, ◌+◌, ◌-◌, ◌*◌, ◌/◌, ◌%◌, Bool, true, false, not, ◌&&◌, Option, none, some, List, [],
  ◌∷◌, length, ◌==◌, ltb, if◌then◌else◌,
}
use cmpt.Strings.{strncmp, strncpy}
use cmpt.Fs.{done, panic, unfinished, M, ◌>>=◌, ◌>>◌, pure, t_dir}
use cmpt.Fs.Content.{Devices, readi, writei}
use cmpt.Fs.Icache.{iget, iput}

-- DIRSIZ
abbrev pub dirsiz : ℕ
dirsiz = 14

-- sizeof(struct dirent)
abbrev pub dirent_size : ℕ
dirent_size = 16

-- the i-th byte that was read
abbrev pub byte_at : List ℕ → ℕ → ℕ
byte_at [] i = 0
byte_at (b ∷ bs) zero = b
byte_at (b ∷ bs) (suc i) = byte_at bs i

-- struct dirent
pub record Dirent : Type 0 where
  pub inum : ℕ
  pub name : ℕ → ℕ

abbrev pub dirent_of : List ℕ → Dirent
dirent_of bs = record { inum = byte_at bs 0 + 256 * byte_at bs 1; name = λ i. byte_at bs (i + 2) }

-- the bytes of a struct dirent; its inum is a ushort
abbrev pub dirent_bytes : Dirent → ℕ → ℕ
dirent_bytes de j =
    if j == 0 then de.inum % 256 else if j == 1 then de.inum / 256 % 256 else de.name (j - 2)

pub namecmp : (ℕ → ℕ) → (ℕ → ℕ) → ℕ
namecmp s t = strncmp s t dirsiz

module _ (devsw : Devices) where
  -- readi of one entry, with the panic of its callers
  pub read_dirent : ℕ → ℕ → M Dirent
  read_dirent dp off s =
      (do
        r ← readi devsw dp off dirent_size
        λ t. elim r [
          | none ↦ panic
          | some bs ↦ if length bs == dirent_size then done (dirent_of bs) t else panic
        ])
        s

  -- dirlookup's loop from off on: the entry's inode number and offset
  pub lookup_from : ℕ → ℕ → ℕ → (ℕ → ℕ) → M (Option (ℕ × ℕ))
  unfolding read_dirent namecmp
  lookup_from zero off dp name s = unfinished
  lookup_from (suc n) off dp name s = elim (ltb off (s.icache dp).size) [
    | false ↦ done none s
    | true ↦
        (do
          de ← read_dirent dp off
          λ t. elim (not (de.inum == 0) && (namecmp name de.name == 0)) [
            | true ↦ done (some (de.inum, off)) t
            | false ↦ lookup_from n (off + dirent_size) dp name t
          ])
          s
  ]

  -- dirlookup: the inode and the offset of the entry
  pub dirlookup : ℕ → (ℕ → ℕ) → M (Option (ℕ × ℕ))
  unfolding lookup_from
  dirlookup dp name s =
      if (s.icache dp).type == t_dir
      then (do
        r ← lookup_from (suc (s.icache dp).size) 0 dp name
        λ t. elim r [
          | none ↦ done none t
          | some (inum, off) ↦ (do ip ← iget (t.icache dp).dev inum; pure (some (ip, off))) t
        ])
          s
      else panic

  -- dirlink's loop from off on: the offset of an empty entry, or the end
  pub empty_from : ℕ → ℕ → ℕ → M ℕ
  unfolding read_dirent
  empty_from zero off dp s = unfinished
  empty_from (suc n) off dp s = elim (ltb off (s.icache dp).size) [
    | false ↦ done off s
    | true ↦
        (do
          de ← read_dirent dp off
          λ t. elim (de.inum == 0) [
            | true ↦ done off t
            | false ↦ empty_from n (off + dirent_size) dp t
          ])
          s
  ]

  -- dirlink: `true` for 0, `false` for -1
  pub dirlink : ℕ → (ℕ → ℕ) → ℕ → M Bool
  unfolding dirlookup empty_from
  dirlink dp name inum s =
      (do
        found ← dirlookup dp name
        λ t. elim found [
          | some (ip, _) ↦ (do iput ip; pure false) t
          | none ↦
              (do
                off ← empty_from (suc (t.icache dp).size) 0 dp
                r ←
                    writei devsw dp
                      (dirent_bytes
                        (record { inum = inum % 65536; name = strncpy (λ _. 0) name dirsiz }))
                      off dirent_size
                λ u. elim r [
                  | none ↦ panic
                  | some n ↦ if n == dirent_size then done true u else panic
                ])
                t
        ])
        s
