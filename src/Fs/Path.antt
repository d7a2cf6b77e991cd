-- ===== src/Fs/Path.antt =====
-- Path names: skipelem and namex. A path is the list of its characters before the NUL.
pub mod Elements
use cmpt.Prelude.{
  ℕ, zero, suc, ◌+◌, ◌-◌, Bool, true, false, not, ◌&&◌, Option, none, some, List, [], ◌∷◌, length,
  ◌==◌, ltb, leb, if◌then◌else◌,
}
use cmpt.Fs.{
  State, Inode, Run, done, no_blocks, panic, sleeps, unfinished, M, and_then, ◌>>=◌, ◌>>◌, pure,
  t_dir,
}
use cmpt.Fs.Content.{Devices}
use cmpt.Fs.Icache.{iget, idup, ilock, iunlock, iput, iunlockput}
use cmpt.Fs.Directory.{dirsiz, byte_at, dirlookup}

-- '/'
abbrev pub slash : ℕ
slash = 47

-- while(*path == '/') path++;
unfoldable pub skip_slashes : List ℕ → List ℕ
skip_slashes [] = []
skip_slashes (c ∷ path) = if c == slash then skip_slashes path else c ∷ path

-- while(*path != '/' && *path != 0) path++; the characters passed, and the rest
unfoldable pub split_elem : List ℕ → List ℕ × List ℕ
split_elem [] = ([], [])
split_elem (c ∷ path) =
    let (elem, rest) = split_elem path in if c == slash then ([], c ∷ path) else (c ∷ elem, rest)

-- memmove(name, s, len), and the NUL where there is room
abbrev pub put_name : List ℕ → (ℕ → ℕ) → ℕ → ℕ
put_name elem name j =
    if leb dirsiz (length elem)
    then (if ltb j dirsiz then byte_at elem j else name j)
    else if ltb j (length elem)
    then byte_at elem j
    else if j == length elem
    then 0
    else name j

-- skipelem: the rest of the path and the name, or `none` for 0
pub skipelem : List ℕ → (ℕ → ℕ) → Option (List ℕ × (ℕ → ℕ))
unfolding skip_slashes split_elem
skipelem path name = elim (skip_slashes path) [
  | [] ↦ none
  | c ∷ p ↦ let (elem, rest) = split_elem (c ∷ p) in some (skip_slashes rest, put_name elem name)
]

module _ (devsw : Devices) where
  -- namex's loop: the inode and the name, or `none` for 0
  pub walk : ℕ → List ℕ → Bool → (ℕ → ℕ) → ℕ → M (Option (ℕ × (ℕ → ℕ)))
  unfolding skipelem
  walk zero path parent name ip s = unfinished
  walk (suc n) path parent name ip s = elim (skipelem path name) [
    | none ↦ if parent then (do iput ip; pure none) s else done (some (ip, name)) s
    | some (rest, name') ↦
        (do
          ilock ip
          λ t.
              if not ((t.icache ip).type == t_dir)
              then (do iunlockput ip; pure none) t
              else if parent && (length rest == 0)
              then (do iunlock ip; pure (some (ip, name'))) t
              else (do
                next ← dirlookup devsw ip name'
                iunlockput ip
                λ u. elim next [
                  | none ↦ done none u
                  | some (jp, _) ↦ walk n rest parent name' jp u
                ])
                  t)
          s
  ]

  -- namex, with the slot of proc->cwd
  pub namex : ℕ → List ℕ → Bool → (ℕ → ℕ) → M (Option (ℕ × (ℕ → ℕ)))
  unfolding walk
  namex cwd path parent name s =
      (do
        ip ← (elim path [ [] ↦ idup cwd | c ∷ _ ↦ if c == slash then iget 1 1 else idup cwd ])
        walk (suc (length path)) path parent name ip)
        s

  pub namei : ℕ → List ℕ → M (Option (ℕ × (ℕ → ℕ)))
  unfolding namex
  namei cwd path = namex cwd path false (λ _. 0)

  pub nameiparent : ℕ → List ℕ → (ℕ → ℕ) → M (Option (ℕ × (ℕ → ℕ)))
  unfolding namex
  nameiparent cwd path name = namex cwd path true name
