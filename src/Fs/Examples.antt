-- ===== src/Fs/Examples.antt =====
-- Inodes and path names at concrete inputs.
use cmpt.Prelude.{ℕ, ◌≡◌, ◌≢◌, refl, arith, true, [], ◌∷◌, ◌==◌, if◌then◌else◌}
use cmpt.Fs.{State, Inode, done}
use cmpt.Fs.Dinode.{iupdate, load_inode}
use cmpt.Fs.Dinode.Layout.{Fits}
use cmpt.Fs.Dinode.Update.{HoldsAt, SameFile, load_inode-iupdate}
use cmpt.Fs.Icache.{iget}
use cmpt.Fs.Icache.Lookup.{Unique}
use cmpt.Fs.Icache.Sharing.{Given, iget-Given}
use cmpt.Fs.Path.{skipelem, slash}
use cmpt.Fs.Path.Elements.{Skipped, skipelem-Skipped}
use cmpt.Fs.Bitmap.Examples.{small_disk, small_sb, five, small}

load_inode-iupdate_example :
    (t : State) × (iupdate 0 small ≡ done tt t)
    × ((u : State) × (load_inode 1 t ≡ done tt u)
        × SameFile (u.icache 1) five
        × ((u.icache 1).valid ≡ true))
    × ((n : ℕ) (i : Inode) → n ≢ 5 → HoldsAt small_disk small_sb n i → HoldsAt t.view t.sb n i)
load_inode-iupdate_example = load_inode-iupdate 0 1 small five-Fits (omega arith) refl refl
  where
    five-Fits : Fits five
    five-Fits = record {
      type = omega arith;
      major = omega arith;
      minor = omega arith;
      nlink = omega arith;
      size = omega arith;
      addrs = λ n. ground arith;
    }

-- "/ab//c"
skipelem-Skipped_example :
    Skipped
      (slash ∷ 97 ∷ 98 ∷ slash ∷ slash ∷ 99 ∷ [])
      (λ _. 0)
      (skipelem (slash ∷ 97 ∷ 98 ∷ slash ∷ slash ∷ 99 ∷ []) (λ _. 0))
skipelem-Skipped_example = skipelem-Skipped (slash ∷ 97 ∷ 98 ∷ slash ∷ slash ∷ 99 ∷ []) (λ _. 0)

-- Slot 0 has inode 5, and no other slot is in use.
abbrev one_cached : State
one_cached = record small { icache = λ n. if n == 0 then five else record five { ref = 0 } }

one_cached-Unique : Unique one_cached.icache
one_cached-Unique i j li lj ri rj d n = ground (arith, ri, rj)

iget-Given_example : Given 1 9 one_cached (iget 1 9 one_cached)
iget-Given_example = iget-Given 1 9 one_cached one_cached-Unique
