-- ===== src/File/Transfer.antt =====
-- xv6-public/file.c: filestat, fileread and filewrite, over the file table, the pipes and the file
-- system. begin_op and end_op change nothing of what a transaction sees of the disk.
use cmpt.Prelude.{
  ◌%◌, ◌^◌, ℕ, zero, suc, ◌+◌, ◌-◌, ◌*◌, ◌/◌, Bool, true, false, Option, none, some, List, [],
  length, ◌==◌, ltb, if◌then◌else◌, update,
}
use cmpt.Pipe.{Pipe, wrote, refused, sleeping, pipewrite, got, interrupted, waiting, piperead}
use cmpt.Log.{log_size}
use cmpt.Fs
use cmpt.Fs.{◌>>=◌, ◌>>◌}
use cmpt.Fs.Content.{Devices, Stat, stati, slice, readi, writei}
use cmpt.Fs.Icache.{ilock, iunlock}
use cmpt.File.{fd_none, fd_pipe, fd_inode, FileTable}

pub record Io : Type 0 where
  pub files : FileTable
  pub pipes : ℕ → Pipe
  pub fs : Fs.State

-- How a call ends: with a result, asleep on a pipe, with the bytes that it has left to write, or
-- on an inode, or by balloc's panic, another panic, or lack of fuel
pub data Outcome (A : Type 0) : Type 0 where
  returned : A → Io → Outcome A
  sleeps_on_pipe : List ℕ → Io → Outcome A
  sleeps_on_inode : Io → Outcome A
  no_space : Io → Outcome A
  panicked : Outcome A
  out_of_fuel : Outcome A

-- A call into fs.c, and what follows it
abbrev then_with : {A B : Type 0} → Io → Fs.Run B → (B → Io → Outcome A) → Outcome A
then_with s (Fs.done b t) k = k b (record s { fs = t })
then_with s (Fs.no_blocks t) k = no_space (record s { fs = t })
then_with s Fs.panic k = panicked
then_with s (Fs.sleeps t) k = sleeps_on_inode (record s { fs = t })
then_with s Fs.unfinished k = out_of_fuel

-- f->off += r
abbrev advance : ℕ → ℕ → Io → Io
advance f r s = record s {
  files = update s.files f (record (s.files f) { off = ((s.files f).off + r) % 2 ^ 32 });
}

-- filestat, or `none` for -1
pub filestat : ℕ → Io → Outcome (Option Stat)
filestat f s = elim (s.files f).type [
  | fd_inode ↦ then_with s (ilock (s.files f).ip s.fs) (λ _ t.
      let st : Stat = stati (t.fs.icache (s.files f).ip) in
      then_with t (iunlock (s.files f).ip t.fs) (λ _ u. returned (some st) u))
  | _ ↦ returned none s
]

module _ (devsw : Devices) (killed : Bool) where
  -- fileread: the bytes, or `none` for -1
  pub fileread : ℕ → ℕ → Io → Outcome (Option (List ℕ))
  fileread f n s =
      let file = s.files f in
      if file.readable
      then (elim file.type [
        | fd_pipe ↦
            (let (p, end) = piperead killed n (s.pipes file.pipe) in
              (let t = record s { pipes = update s.pipes file.pipe p } in
                elim end [
                  | got bytes ↦ returned (some bytes) t
                  | interrupted ↦ returned none t
                  | waiting ↦ sleeps_on_pipe [] t
                ]))
        | fd_inode ↦ then_with s (ilock file.ip s.fs) (λ _ t.
            then_with t (readi devsw file.ip file.off n t.fs) (λ r u.
              then_with (elim r [ none ↦ u | some bytes ↦ advance f (length bytes) u ])
                (iunlock file.ip u.fs) (λ _ w. returned r w)))
        | fd_none ↦ panicked
      ])
      else returned none s

  -- ((LOGSIZE-1-1-2) / 2) * 512
  abbrev pub piece : ℕ
  piece = (log_size - 1 - 1 - 2) / 2 * 512

  -- filewrite's loop behind i of n bytes
  pub write_pieces : ℕ → ℕ → ℕ → ℕ → (ℕ → ℕ) → Io → Outcome (Option ℕ)
  write_pieces zero i n f addr s =
      if ltb i n then out_of_fuel else returned (if i == n then some n else none) s
  write_pieces (suc fuel) i n f addr s = elim (ltb i n) [
    | false ↦ returned (if i == n then some n else none) s
    | true ↦
        (let n1 = if ltb piece (n - i) then piece else n - i in
          then_with s (ilock (s.files f).ip s.fs) (λ _ t.
            then_with t (writei devsw (t.files f).ip (λ j. addr (i + j)) (t.files f).off n1 t.fs)
              (λ r u.
                then_with (elim r [ none ↦ u | some k ↦ advance f k u ])
                  (iunlock (u.files f).ip u.fs)
                  (λ _ w. elim r [
                    | none ↦ returned none w
                    | some k ↦ elim (k == n1) [
                      | false ↦ panicked
                      | true ↦ write_pieces fuel (i + k) n f addr w
                    ]
                  ]))))
  ]

  -- filewrite of the n bytes at addr: n, or `none` for -1
  pub filewrite : ℕ → (ℕ → ℕ) → ℕ → Io → Outcome (Option ℕ)
  unfolding write_pieces
  filewrite f addr n s =
      let file = s.files f in
      if file.writable
      then (elim file.type [
        | fd_pipe ↦
            (let (p, end) = pipewrite killed (slice addr 0 n) (s.pipes file.pipe) in
              (let t = record s { pipes = update s.pipes file.pipe p } in
                elim end [
                  | wrote ↦ returned (some n) t
                  | refused ↦ returned none t
                  | sleeping rest ↦ sleeps_on_pipe rest t
                ]))
        | fd_inode ↦ write_pieces n 0 n f addr s
        | fd_none ↦ panicked
      ])
      else returned none s
