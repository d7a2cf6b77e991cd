-- ===== src/Fs/Content/Examples.antt =====
-- A file of one block, block 4, on the small disk.
use cmpt.Prelude.{
  ℕ, zero, suc, ◌+◌, ◌*◌, ◌/◌, ◌%◌, ap, ◌^◌, ◌<◌, ◌≤◌, ◌≡◌, ◌≢◌, ◌⊎◌, refl, ◌∙◌, sym, subst, arith,
  true, none, some, ◌==◌, if◌then◌else◌, Bool-cases, inl, inr, ==→eq,
}
use cmpt.Disk.{Disk, word}
use cmpt.Fs.{State, done, bblock, iblock, bsize, maxfile}
use cmpt.Fs.Rules.{Ends}
use cmpt.Fs.Bitmap.Map.{used}
use cmpt.Fs.Bitmap.Free.{Formatted}
use cmpt.Fs.Bitmap.Examples.{small_disk, small_sb, five}
use cmpt.Fs.Dinode.Layout.{Fits}
use cmpt.Fs.Content.{Devices, slice, bmap, readi, writei}
use cmpt.Fs.Content.Data.{IsData}
use cmpt.Fs.Content.Growth.{block_of}
use cmpt.Fs.Content.Mapping.{Laid, Got, NoSpace, bmap-Got}
use cmpt.Fs.Content.Reading.{content, Covers, cut_at, readi-slice}
use cmpt.Fs.Content.Rounds.{written, Stopped}
use cmpt.Fs.Content.Storing.{Wrote, size_after, writei-Wrote, readi-writei}

abbrev no_devices : Devices
no_devices = record { reads = λ _. none; writes = λ _. none }

-- Block 4 is used too and counts its bytes.
abbrev file_disk : Disk
file_disk b =
    if b == 3
    then (λ j. if j == 0 then 31 else 0)
    else if b == 4
    then (λ j. j % 256)
    else small_disk b

abbrev file_state : State
file_state = record { view = file_disk; sb = small_sb; icache = λ _. five }

file_used : (c : ℕ) → c < 5 → used file_disk small_sb c ≡ true
file_used zero _ = refl
file_used (suc zero) _ = refl
file_used (suc (suc zero)) _ = refl
file_used (suc (suc (suc zero))) _ = refl
file_used (suc (suc (suc (suc zero)))) _ = refl
file_used (suc (suc (suc (suc (suc c))))) lt = absurd (omega arith)

file-Formatted : Formatted file_disk small_sb
unfolding word
file-Formatted = record {
  mapped = record {
    bytes = λ b o. ground arith;
    map_inside = λ c lt. omega arith;
    map_used = λ c lt. file_used (bblock c small_sb) (omega arith);
  };
  synced = refl;
  before_map = omega arith;
  boot_used = file_used 0 (omega arith);
  super_used = file_used 1 (omega arith);
  inode_inside = λ n lt. omega arith;
  inode_used = λ n lt. file_used (iblock n small_sb) (omega arith);
  inode_after = omega arith;
  inode_apart = λ n c ln lc. omega arith;
}

four-IsData : IsData file_disk small_sb 4
four-IsData = record {
  inside = omega arith;
  taken = file_used 4 (omega arith);
  no_zero = omega arith;
  no_super = omega arith;
  no_map = λ c lt. omega arith;
  no_inode = λ n lt. omega arith;
}

-- Only the first block is there.
first_block : (n : ℕ) → block_of file_disk five.addrs n ≢ 0 → n ≡ 0
first_block n ne = elim (Bool-cases (n == 0)) [
  | inl e ↦ ==→eq n 0 e
  | inr e ↦ absurd (ne (ground (arith, e)))
]

file-Laid : Laid file_state 0
file-Laid = record {
  formatted = file-Formatted;
  data_block = λ n lt ne.
      subst (λ m. IsData file_disk small_sb (block_of file_disk five.addrs m))
        (sym (first_block n ne)) four-IsData;
  index_block = λ ne. absurd (ne refl);
  apart = λ n m ln lm ne e. first_block n ne ∙ sym (first_block m (λ z. ne (e ∙ z)));
  index_apart = λ n lt ne e. ne e;
}

-- Block 1 of the file is not there yet.
bmap-Got_example : Ends (Got 0 1 file_state) (NoSpace 0 file_state) (bmap 0 1 file_state)
bmap-Got_example = bmap-Got file_state 0 1 file-Laid (omega arith)

-- The 13 bytes from 3 on are in block 0.
file-Covers : Covers 0 3 (cut_at 16 3 20) file_state
file-Covers o ge lo z =
    let q : o / bsize ≡ 0 = omega arith in
    let four : 4 ≡ 0 = sym (ap (block_of file_disk five.addrs) q) ∙ z in omega (arith, four)

readi-slice_example :
    ((16 < 3) ⊎ (2 ^ 32 ≤ 3 + 20) → readi no_devices 0 3 20 file_state ≡ done none file_state)
    × (3 ≤ 16
        → 3 + 20 < 2 ^ 32
        → readi no_devices 0 3 20 file_state
          ≡ done (some (slice (content file_state 0) 3 (cut_at 16 3 20))) file_state)
readi-slice_example =
    readi-slice no_devices file_state 0 3 20 (omega arith) (omega arith) file-Covers (omega arith)
      (omega arith)

five-Fits : Fits five
five-Fits = record {
  type = omega arith;
  major = omega arith;
  minor = omega arith;
  nlink = omega arith;
  size = omega arith;
  addrs = λ j le. ground arith;
}

abbrev sevens : ℕ → ℕ
sevens _ = 7

writei-Wrote_example :
    ((16 < 10) ⊎ (2 ^ 32 ≤ 10 + 600)
      → writei no_devices 0 sevens 10 600 file_state ≡ done none file_state)
    × (maxfile * bsize < 10 + 600
        → writei no_devices 0 sevens 10 600 file_state ≡ done none file_state)
    × (10 ≤ 16
        → 10 + 600 ≤ maxfile * bsize
        → Ends
            (λ r t.
              (r ≡ some 600)
              × Wrote 0 10 600
                  (written file_state 0 10 600 sevens 0)
                  (size_after 16 10 600)
                  file_state
                  t)
            (Stopped 0 sevens file_state 10 600 0)
            (writei no_devices 0 sevens 10 600 file_state))
writei-Wrote_example =
    writei-Wrote no_devices file_state 0 sevens 10 600 file-Laid (omega arith) (omega arith)
      five-Fits (λ j. omega arith) (omega arith) (omega arith)

readi-writei_example :
    Ends
      (λ r t. (r ≡ some 600) × (readi no_devices 0 10 600 t ≡ done (some (slice sevens 0 600)) t))
      (Stopped 0 sevens file_state 10 600 0)
      (writei no_devices 0 sevens 10 600 file_state)
readi-writei_example =
    readi-writei no_devices file_state 0 sevens 10 600 file-Laid (omega arith) (omega arith)
      five-Fits (λ j. omega arith) (omega arith) (omega arith) (omega arith) (omega arith)
