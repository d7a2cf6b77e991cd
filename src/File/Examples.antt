-- ===== src/File/Examples.antt =====
-- A pipe end that two processes share.
use cmpt.Prelude.{
  ℕ, ◌+◌, ◌-◌, ◌<◌, ◌≡◌, ◌≢◌, ◌↔◌, refl, arith, true, false, none, some, [], ◌∷◌, update,
}
use cmpt.File.{
  File, FileTable, fd_none, fd_pipe, nfile, filealloc, filedup, fileclose, Release, nothing,
}
use cmpt.File.Counts.{count, Files, allocates, dups, sets, Reach, start, later, Counted}
use cmpt.File.Sharing.{HandsOn, filealloc_exclusive, fileclose_releases}

abbrev blank : File
blank = record {
  type = fd_none;
  ref = 0;
  readable = false;
  writable = false;
  pipe = 0;
  ip = 0;
  off = 0;
}

abbrev empty : Files
empty = record { table = λ _. blank; held = [] }

abbrev opened : Files
opened = record { table = (filealloc empty.table).1; held = 0 ∷ [] }

abbrev pipe_end : File
pipe_end = record (opened.table 0) { type = fd_pipe; writable = true; pipe = 4096 }

abbrev set_up : Files
set_up = record opened { table = update opened.table 0 pipe_end }

abbrev shared : Files
shared = record {
  table = update set_up.table 0 (record (set_up.table 0) { ref = (set_up.table 0).ref + 1 });
  held = 0 ∷ 0 ∷ [];
}

empty-Counted : Counted empty
unfolding count
empty-Counted = record { refs = λ i lt. refl; in_table = λ i pos. absurd (omega arith) }

shared-Reach : Reach empty shared
unfolding count filealloc filedup
shared-Reach =
    later (later (later start (allocates refl)) (sets {i = 0} pipe_end (omega arith) refl))
      (dups {i = 0} (omega arith) refl)

filealloc_exclusive_example :
    ((i : ℕ) → (filealloc shared.table).0 ≡ some i → (i < nfile) × (count i shared.held ≡ 0))
    × (((filealloc shared.table).0 ≡ none) ↔ ((m : ℕ) → m < nfile → 0 < count m shared.held))
filealloc_exclusive_example = filealloc_exclusive empty-Counted shared-Reach

fileclose_releases_example :
    (t : FileTable) × (r : Release) × (fileclose 0 shared.table ≡ some (t, r))
    × ((count 0 shared.held ≡ 1)
        → HandsOn (shared.table 0) r
          × (t ≡ update shared.table 0 (record (shared.table 0) { ref = 0; type = fd_none })))
    × ((count 0 shared.held ≢ 1)
        → (r ≡ nothing)
          × (t ≡ update shared.table 0 (record (shared.table 0) { ref = count 0 shared.held - 1 })))
unfolding count
fileclose_releases_example = fileclose_releases 0 empty-Counted shared-Reach (omega arith)
