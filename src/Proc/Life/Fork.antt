-- ===== src/Proc/Life/Fork.antt =====
-- allocproc and fork: the slot of the new process.
use cmpt.Prelude.{
  ℕ, ◌+◌, ◌%◌, ◌^◌, ◌<◌, ◌≡◌, ◌≢◌, inl, inr, refl, ◌∙◌, sym, subst, ap, fun_ext, arith,
  if◌then◌else◌, update_self, true, false, Option, none, some, ◌==◌, update, Bool-cases, ==→eq,
  ==→ne,
}
use cmpt.Proc.{
  Proc, Table, ProcState, unused, embryo, sleeping, runnable, running, zombie, nproc, is_unused,
  find_slot,
}
use cmpt.Proc.Loops.{Search, found, missing, find_slot-Search}
use cmpt.Proc.Services.{Services, Kernel}
use cmpt.Proc.Life.{claim_slot, give_stack, allocproc, fork_into}

pub is_unused→unused : (s : ProcState) → is_unused s ≡ true → s ≡ unused
is_unused→unused unused e = refl
is_unused→unused embryo e = ground (arith, e)
is_unused→unused sleeping e = ground (arith, e)
is_unused→unused runnable e = ground (arith, e)
is_unused→unused running e = ground (arith, e)
is_unused→unused zombie e = ground (arith, e)

-- The slot, with the changes of allocproc.
abbrev pub born : ProcState → ℕ → ℕ → Proc → Proc
born s pid page p = record p { pid = pid; kstack = page; state = s }

update_twice : (t : Table) (i : ℕ) (p q : Proc) → update (update t i p) i q ≡ update t i q
update_twice t i p q =
    fun_ext (λ j. elim (Bool-cases (j == i)) [ inl e ↦ rw e refl | inr e ↦ rw e refl ])

module _ {R : Type 0} (v : Services R) where
  -- The state with slot i claimed
  abbrev claimed : ℕ → Kernel R → Kernel R
  claimed i k = record k {
    table = update k.table i (record (k.table i) { state = embryo; pid = k.nextpid });
    nextpid = (k.nextpid + 1) % 2 ^ 32;
  }

  claim_slot_at :
      (i : ℕ) (k : Kernel R)
      → find_slot nproc 0 (λ p. is_unused p.state) k.table ≡ some i
      → claim_slot v k ≡ (some i, claimed i k)
  unfolding claim_slot
  claim_slot_at i k e = rw (claim_slot, e) refl

  -- The two halves of allocproc, with nothing in between
  give_stack-claimed :
      (i : ℕ) (k : Kernel R)
      → give_stack v i (claimed i k) ≡ (
          if (v.kalloc k.rest).0 == 0
          then (
            none,
            record {
              table = update k.table i (born unused k.nextpid (v.kalloc k.rest).0 (k.table i));
              nextpid = (k.nextpid + 1) % 2 ^ 32;
              rest = (v.kalloc k.rest).1;
            },
          )
          else (
            some i,
            record {
              table = update k.table i (born embryo k.nextpid (v.kalloc k.rest).0 (k.table i));
              nextpid = (k.nextpid + 1) % 2 ^ 32;
              rest = (v.kalloc k.rest).1;
            },
          ))
  unfolding give_stack
  give_stack-claimed i k = elim (Bool-cases ((v.kalloc k.rest).0 == 0)) [
    | inl out ↦ rw out (
        ap (λ (t : Table). (none, outcome t))
          (placed (λ p. record p { kstack = (v.kalloc k.rest).0; state = unused })))
    | inr page ↦ rw page (
        ap (λ (t : Table). (some i, outcome t))
          (placed (λ p. record p { kstack = (v.kalloc k.rest).0 })))
  ]
    where
      outcome : Table → Kernel R
      outcome t = record {
        table = t;
        nextpid = (k.nextpid + 1) % 2 ^ 32;
        rest = (v.kalloc k.rest).1;
      }

      x : Proc
      x = record (k.table i) { state = embryo; pid = k.nextpid }

      placed :
          (f : Proc → Proc)
          → update (update k.table i x) i (f (update k.table i x i)) ≡ update k.table i (f x)
      placed f =
          ap (λ (p : Proc). update (update k.table i x) i (f p)) (update_self k.table i x i refl)
          ∙ update_twice k.table i x (f x)

  allocproc_runs :
      (k k' : Kernel R) (o : Option ℕ)
      → claim_slot v k ≡ (o, k')
      → allocproc v k ≡ elim o [ none ↦ (none, k') | some i ↦ give_stack v i k' ]
  unfolding allocproc
  allocproc_runs k k' o e =
      ap
        (λ (r : Option ℕ × Kernel R). elim r.0 [ none ↦ (none, r.1) | some i ↦ give_stack v i r.1 ])
        e

  allocproc_full :
      (k : Kernel R)
      → find_slot nproc 0 (λ p. is_unused p.state) k.table ≡ none
      → allocproc v k ≡ (none, k)
  unfolding claim_slot
  allocproc_full k e = allocproc_runs k k none (rw (claim_slot, e) refl)

  pub allocproc_claimed :
      (i : ℕ) (k : Kernel R)
      → find_slot nproc 0 (λ p. is_unused p.state) k.table ≡ some i
      → allocproc v k ≡ (
          if (v.kalloc k.rest).0 == 0
          then (
            none,
            record {
              table = update k.table i (born unused k.nextpid (v.kalloc k.rest).0 (k.table i));
              nextpid = (k.nextpid + 1) % 2 ^ 32;
              rest = (v.kalloc k.rest).1;
            },
          )
          else (
            some i,
            record {
              table = update k.table i (born embryo k.nextpid (v.kalloc k.rest).0 (k.table i));
              nextpid = (k.nextpid + 1) % 2 ^ 32;
              rest = (v.kalloc k.rest).1;
            },
          ))
  allocproc_claimed i k e =
      allocproc_runs k (claimed i k) (some i) (claim_slot_at i k e) ∙ give_stack-claimed i k

  pub data Allocated (k : Kernel R) : Option ℕ → Kernel R → Type 0 where
    full : ((m : ℕ) → m < nproc → (k.table m).state ≢ unused) → Allocated k none k
    no_page :
        {i : ℕ}
        → i < nproc
        → (k.table i).state ≡ unused
        → (v.kalloc k.rest).0 ≡ 0
        → Allocated k none (record {
          table = update k.table i (born unused k.nextpid (v.kalloc k.rest).0 (k.table i));
          nextpid = (k.nextpid + 1) % 2 ^ 32;
          rest = (v.kalloc k.rest).1;
        })
    gives :
        {i : ℕ}
        → i < nproc
        → (k.table i).state ≡ unused
        → ((m : ℕ) → m < i → (k.table m).state ≢ unused)
        → (v.kalloc k.rest).0 ≢ 0
        → Allocated k (some i) (record {
          table = update k.table i (born embryo k.nextpid (v.kalloc k.rest).0 (k.table i));
          nextpid = (k.nextpid + 1) % 2 ^ 32;
          rest = (v.kalloc k.rest).1;
        })

  -- allocproc fails without a change when no slot is unused. Else it takes the first unused slot
  -- and the next pid, and the slot becomes an embryo with the page of kalloc as its stack, or is
  -- unused again when there is no page. No other slot changes.
  pub allocproc-Allocated : (k : Kernel R) → Allocated k (allocproc v k).0 (allocproc v k).1
  allocproc-Allocated k =
      of (find_slot nproc 0 (λ p. is_unused p.state) k.table) refl
        (find_slot-Search nproc 0 (λ p. is_unused p.state) k.table)
    where
      used : (m : ℕ) → is_unused (k.table m).state ≡ false → (k.table m).state ≢ unused
      used m e z = ground (arith, e, ap is_unused z)

      of :
          (o : Option ℕ)
          → find_slot nproc 0 (λ p. is_unused p.state) k.table ≡ o
          → Search 0 nproc (λ p. is_unused p.state) k.table o
          → Allocated k (allocproc v k).0 (allocproc v k).1
      of none e (missing all) =
          subst (λ (r : Option ℕ × Kernel R). Allocated k r.0 r.1) (sym (allocproc_full k e))
            (full (λ m lt. used m (all m (omega arith) lt)))
      of (some i) e (found le lt pass first) =
          subst (λ (r : Option ℕ × Kernel R). Allocated k r.0 r.1) (sym (allocproc_claimed i k e))
            (elim (Bool-cases ((v.kalloc k.rest).0 == 0)) [
              | inl out ↦ rw out (
                  no_page lt (is_unused→unused (k.table i).state pass)
                    (==→eq (v.kalloc k.rest).0 0 out))
              | inr page ↦ rw page (
                  gives lt (is_unused→unused (k.table i).state pass)
                    (λ m l. used m (first m (omega arith) l)) (==→ne (v.kalloc k.rest).0 0 page))
            ])

  -- what fork_into makes of the child's slot
  pub data Forked (me i : ℕ) (k k' : Kernel R) : Option ℕ → Type 0 where
    undone :
        (q : Proc)
        → k'.table ≡ update k.table i q
        → q.state ≡ unused
        → q.parent ≡ (k.table i).parent
        → q.kstack ≡ 0
        → Forked me i k k' none
    forks :
        (q : Proc)
        → k'.table ≡ update k.table i q
        → q.state ≡ runnable
        → q.parent ≡ some me
        → q.sz ≡ (k.table me).sz
        → q.tf.eax ≡ 0
        → Forked me i k k' (some (k.table i).pid)

  pub fork_into-Forked :
      (me i : ℕ) (k : Kernel R) → Forked me i k (fork_into v me i k).1 (fork_into v me i k).0
  unfolding fork_into
  fork_into-Forked me i k =
      elim (Bool-cases ((v.copyuvm (k.table me).pgdir (k.table me).sz k.rest).0 == 0)) [
        | inl out ↦ rw (fork_into, out) (undone _ refl refl refl refl)
        | inr copied ↦ rw (fork_into, copied) (forks _ refl refl refl refl refl)
      ]
