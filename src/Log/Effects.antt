-- ===== src/Log/Effects.antt =====
-- What each operation of the log does to `struct log` in memory.
use cmpt.Prelude.{
  ℕ, zero, suc, ◌+◌, ◌-◌, ◌*◌, ◌<◌, ◌≤◌, ◌≡◌, inl, inr, refl, ◌∙◌, ap, subst, arith, true, false,
  Bool-cases, ltb, ◌==◌,
}
use cmpt.Disk.{Block}
use cmpt.Log.{
  State, Log, Run, done, M, begin_op, log_write, end_op, commit, write_log, write_head,
  install_trans, clear_head, for_from, save_block, install_block, bread, bwrite, log_size,
  max_op_blocks,
}
use cmpt.Log.Rules.{Ends, ends, bind, mono, bwrite_lem}

-- A run that completes with the log in memory at `l`, or loses power.
abbrev Leaves : Log → Run (Unit {0}) → Type 0
Leaves l = Ends (λ _ t. t.log ≡ l) (λ _. Unit {0})

bwrite-Leaves : (b : ℕ) (a : Block) (s : State) → Leaves s.log (bwrite b a s)
bwrite-Leaves b a s =
    mono (bwrite_lem b a s) (λ _ t (e, _). ap (λ (u : State). u.log) e) (λ _ _. tt)

for_from-Leaves :
    (body : ℕ → M (Unit {0}))
    → ((i : ℕ) (s : State) → Leaves s.log (body i s))
    → (k i : ℕ) (s : State) → Leaves s.log (for_from k i body s)
unfolding for_from
for_from-Leaves body one zero i s = ends refl
for_from-Leaves body one (suc k) i s = bind (one i s) λ _ t e.
    subst (λ l. Leaves l (for_from k (i + 1) body t)) e (for_from-Leaves body one k (i + 1) t)

write_log-Leaves : (s : State) → Leaves s.log (write_log s)
unfolding write_log save_block bread
write_log-Leaves s = for_from-Leaves save_block (λ i t. bwrite-Leaves _ _ t) _ 0 s

install_trans-Leaves : (s : State) → Leaves s.log (install_trans s)
unfolding install_trans install_block bread
install_trans-Leaves s = for_from-Leaves install_block (λ i t. bwrite-Leaves _ _ t) _ 0 s

write_head-Leaves : (s : State) → Leaves s.log (write_head s)
unfolding write_head bread
write_head-Leaves s = bwrite-Leaves _ _ s

-- What a commit does to the log in memory.
record Emptied (l m : Log) : Type 0 where
  size : m.size ≡ l.size
  outstanding : m.outstanding ≡ l.outstanding
  count : m.lh.n ≡ 0

Emptied-clear : (l m : Log) → m ≡ l → Emptied l (record m { lh = record m.lh { n = 0 } })
Emptied-clear l m e = record {
  size = ap (λ (k : Log). k.size) e;
  outstanding = ap (λ (k : Log). k.outstanding) e;
  count = refl;
}

commit-Emptied : (s : State) → Ends (λ _ t. Emptied s.log t.log) (λ _. Unit {0}) (commit s)
unfolding commit clear_head
commit-Emptied s = elim (Bool-cases (ltb 0 s.log.lh.n)) [
  | inl busy ↦ rw busy (
      bind (write_log-Leaves s) λ _ t e. bind (write_head-Leaves t) λ _ u e'.
        bind (install_trans-Leaves u) λ _ v e''.
          mono
            (write_head-Leaves (record v { log = record v.log { lh = record v.log.lh { n = 0 } } }))
            (λ _ w same. rw same (Emptied-clear s.log v.log (e'' ∙ e' ∙ e))) (λ _ _. tt))
  | inr idle ↦ rw idle (ends (record { size = refl; outstanding = refl; count = ground arith }))
]

pub record Logged (s t : State) : Type 0 where
  pub grows : t.log.lh.n ≤ s.log.lh.n + 1
  pub size : t.log.size ≡ s.log.size
  pub outstanding : t.log.outstanding ≡ s.log.outstanding
  pub committing : t.log.committing ≡ s.log.committing

pub log_write-Logged :
    (b : ℕ) (a : Block) (s : State) {t : State} → log_write b a s ≡ done tt t → Logged s t
unfolding log_write
log_write-Logged b a s e = ground arith

pub record Ended (s t : State) : Type 0 where
  pub shrinks : t.log.lh.n ≤ s.log.lh.n
  pub size : t.log.size ≡ s.log.size
  pub outstanding : t.log.outstanding + 1 ≡ s.log.outstanding
  pub committing : t.log.committing ≡ false

pub end_op-Ends :
    (s : State)
    → s.log.committing ≡ false
    → 0 < s.log.outstanding
    → Ends (λ _ t. Ended s t) (λ _. Unit {0}) (end_op s)
unfolding end_op
end_op-Ends s quiet active = elim (Bool-cases (s.log.outstanding == 1)) [
  | inl last ↦
      let first : (s.log.outstanding == 0) ≡ false = ground arith in
      rw (first, quiet, last)
        (bind
          (commit-Emptied (record s { log = record s.log { outstanding = 0; committing = true } }))
          λ _ t e. ends (record {
            shrinks = omega (arith, e.count);
            size = e.size;
            outstanding = ground (arith, e.outstanding);
            committing = refl;
          }))
  | inr others ↦
      let first : (s.log.outstanding == 0) ≡ false = ground arith in
      simp (first, quiet, others)
        (ends
          {s = record s {
            log = record s.log { outstanding = s.log.outstanding - 1; committing = false };
          }}
          (record {
            shrinks = omega arith;
            size = refl;
            outstanding = omega arith;
            committing = refl;
          }))
]

pub begin_op-room :
    (l : Log) {m : Log}
    → begin_op l ≡ (m, true)
    → (l.lh.n + (l.outstanding + 1) * max_op_blocks ≤ log_size)
      × (m ≡ record l { outstanding = l.outstanding + 1 })
unfolding begin_op
begin_op-room l e = ground arith
