-- ===== src/Log/Reserve.antt =====
-- begin_op's reservation of log space, over any interleaving of file system calls.
use cmpt.Prelude.{
  ℕ, suc, ◌+◌, ◌-◌, ◌*◌, ◌<◌, ◌≤◌, ◌≡◌, ◌≢◌, ◌↔◌, refl, ◌∙◌, ap, arith, true, false, List, [], ◌∷◌,
  ◌++◌, length, length-append,
}
use cmpt.Disk.{Block}
use cmpt.Log.{State, Log, done, panic, begin_op, log_write, end_op, log_size, max_op_blocks}
use cmpt.Log.Rules.{ends-done}
use cmpt.Log.Effects.{log_write-Logged, end_op-Ends, begin_op-room}

-- The calls in progress: for each, how many blocks it has logged for the first time.
abbrev pub Calls : Type 0
Calls = List ℕ

-- What a call may still log.
abbrev pub reserved : Calls → ℕ
reserved [] = 0
reserved (u ∷ us) = (max_op_blocks - u) + reserved us

-- The kernel's calls, in any order; a call logs at most MAXOPBLOCKS blocks, and a block that the
-- transaction holds already is free. A step is atomic: log.lock is held, or (in the commit of the
-- last call) `committing` keeps new calls out.
pub data Step (s : State) (us : Calls) : State → Calls → Type 0 where
  begins : {l : Log} → begin_op s.log ≡ (l, true) → Step s us (record s { log = l }) (0 ∷ us)
  logs :
      {t : State} (pre : Calls) (u : ℕ) (post : Calls) (b : ℕ) (a : Block)
      → us ≡ pre ++ (u ∷ post)
      → u < max_op_blocks
      → log_write b a s ≡ done tt t
      → Step s us t (pre ++ (suc u ∷ post))
  relogs :
      {t : State} (b : ℕ) (a : Block)
      → log_write b a s ≡ done tt t
      → t.log.lh.n ≡ s.log.lh.n
      → Step s us t us
  finishes :
      {t : State} (pre : Calls) (u : ℕ) (post : Calls)
      → us ≡ pre ++ (u ∷ post)
      → end_op s ≡ done tt t
      → Step s us t (pre ++ post)

-- What initlog leaves.
pub record Fresh (s : State) : Type 0 where
  pub empty : s.log.lh.n ≡ 0
  pub idle : s.log.outstanding ≡ 0
  pub open_log : s.log.committing ≡ false

pub data Reach (s₀ : State) : State → Calls → Type 0 where
  start : Reach s₀ s₀ []
  later : {s t : State} {us vs : Calls} → Reach s₀ s us → Step s us t vs → Reach s₀ t vs

record Reserved (size : ℕ) (s : State) (us : Calls) : Type 0 where
  room : s.log.lh.n + reserved us ≤ log_size
  calls : s.log.outstanding ≡ length us
  open_log : s.log.committing ≡ false
  same_size : s.log.size ≡ size

reserved-le : (us : Calls) → reserved us ≤ length us * max_op_blocks
reserved-le [] = omega arith
reserved-le (u ∷ us) = omega (arith, reserved-le us)

reserved-append : (us vs : Calls) → reserved (us ++ vs) ≡ reserved us + reserved vs
reserved-append [] vs = omega arith
reserved-append (u ∷ us) vs = omega (arith, reserved-append us vs)

reserved-at :
    (pre : Calls) (u : ℕ) (post : Calls)
    → reserved (pre ++ (u ∷ post)) ≡ reserved (pre ++ post) + (max_op_blocks - u)
reserved-at pre u post = rw reserved-append (rw reserved-append (omega arith))

length-at :
    (pre : Calls) (u : ℕ) (post : Calls) → length (pre ++ (u ∷ post)) ≡ suc (length (pre ++ post))
length-at pre u post = rw length-append (rw length-append (omega arith))

Step-Reserved :
    {size : ℕ} {s t : State} {us vs : Calls}
    → Step s us t vs
    → Reserved size s us
    → Reserved size t vs
Step-Reserved {s} {us} (begins e) r =
    let (fits, m) = begin_op-room s.log e in
    rw m (record {
      room = omega (arith, reserved-le us, r.calls);
      calls = omega (arith, r.calls);
      open_log = r.open_log;
      same_size = r.same_size;
    })
Step-Reserved {s} {us} (logs {t} pre u post b a split lt e) r =
    let w = log_write-Logged b a s e in
    let before = ap reserved split ∙ reserved-at pre u post in
    let calls = ap length split ∙ length-at pre u post in
    record {
      room = omega (arith, r.room, w.grows, before, reserved-at pre (suc u) post);
      calls = omega (arith, r.calls, w.outstanding, calls, length-at pre (suc u) post);
      open_log = w.committing ∙ r.open_log;
      same_size = w.size ∙ r.same_size;
    }
Step-Reserved {s} (relogs b a e same) r =
    let w = log_write-Logged b a s e in
    record {
      room = omega (arith, r.room);
      calls = w.outstanding ∙ r.calls;
      open_log = w.committing ∙ r.open_log;
      same_size = w.size ∙ r.same_size;
    }
Step-Reserved {s} (finishes {t} pre u post split e) r =
    let before = ap reserved split ∙ reserved-at pre u post in
    let calls = ap length split ∙ length-at pre u post in
    let d = ends-done (end_op-Ends s r.open_log (omega (arith, r.calls, calls))) e in
    record {
      room = omega (arith, r.room, d.shrinks, before);
      calls = omega (arith, r.calls, d.outstanding, calls);
      open_log = d.committing;
      same_size = d.size ∙ r.same_size;
    }

Reach-Reserved : {s₀ s : State} {us : Calls} → Fresh s₀ → Reach s₀ s us → Reserved s₀.log.size s us
Reach-Reserved {s₀} f start = record {
  room = omega (arith, f.empty);
  calls = f.idle;
  open_log = f.open_log;
  same_size = refl;
}
Reach-Reserved f (later r st) = Step-Reserved st (Reach-Reserved f r)

-- In every interleaving of calls, each of which logs at most MAXOPBLOCKS blocks, a call that may
-- still log one finds log_write panicking exactly when the log area has no room: when the
-- transaction has size - 1 blocks. The transaction is below LOGSIZE then.
pub reserve_room :
    {s₀ s : State} {us : Calls} (pre : Calls) (u : ℕ) (post : Calls) (b : ℕ) (a : Block)
    → Fresh s₀
    → Reach s₀ s us
    → us ≡ pre ++ (u ∷ post)
    → u < max_op_blocks
    → (s.log.lh.n < log_size) × ((log_write b a s ≡ panic) ↔ (s₀.log.size ≤ s.log.lh.n + 1))
unfolding log_write
reserve_room {s₀} {s} pre u post b a f reach split lt =
    let r = Reach-Reserved f reach in
    let before = ap reserved split ∙ reserved-at pre u post in
    let calls = ap length split ∙ length-at pre u post in
    let below : s.log.lh.n < log_size = omega (arith, r.room, before) in
    let active : 0 < s.log.outstanding = omega (arith, r.calls, calls) in
    (below, (λ e. ground (arith, r.same_size), λ le. ground (arith, r.same_size)))

-- So with a log area of more than LOGSIZE blocks no such call panics.
pub reserve_safe :
    {s₀ s : State} {us : Calls} (pre : Calls) (u : ℕ) (post : Calls) (b : ℕ) (a : Block)
    → Fresh s₀
    → Reach s₀ s us
    → us ≡ pre ++ (u ∷ post)
    → u < max_op_blocks
    → log_size < s₀.log.size
    → log_write b a s ≢ panic
reserve_safe pre u post b a f reach split lt big e =
    let (below, at) = reserve_room pre u post b a f reach split lt in absurd (omega (arith, at.0 e))
