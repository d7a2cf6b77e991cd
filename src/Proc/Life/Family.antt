-- ===== src/Proc/Life/Family.antt =====
-- What the table keeps about parents and children, under a change of one slot or of many.
use cmpt.Prelude.{
  ℕ, ◌<◌, ◌≡◌, ◌≢◌, ◌⊎◌, inl, inr, refl, ◌∙◌, sym, ap, subst, true, false, none, some, ◌==◌, update,
  update-ne, update_self, Bool-cases, some_eq, ==→eq, ==→ne,
}
use cmpt.Proc.{Proc, Table, zombie, nproc}
use cmpt.Proc.Life.Passed.{SleepsOn, is_alive, Passed, true-ne_false}

-- init has no parent and never dies; no process is its own parent; and nobody sleeps on his own
-- slot with a zombie child.
pub record Tended (slot_addr : ℕ → ℕ) (init : ℕ) (t : Table) : Type 0 where
  pub init_alive : is_alive (t init).state ≡ true
  pub orphan : (t init).parent ≡ none
  pub apart : (i : ℕ) → i < nproc → (t i).parent ≢ some i
  pub tended :
      (i j : ℕ)
      → i < nproc
      → j < nproc
      → (t j).parent ≡ some i
      → (t j).state ≡ zombie
      → ¬ SleepsOn (slot_addr i) (t i)

pub none-ne_some : (i : ℕ) → none ≢ some i
none-ne_some i e = true-ne_false (ap (λ o. elim o [ none ↦ true | some x ↦ false ]) e)

module _ (slot_addr : ℕ → ℕ) (init : ℕ) (lt_init : init < nproc) where
  -- A change of one slot, to q: q is no zombie, unless its parent is awake, and q does not fall
  -- asleep on its own slot, unless it has no zombie child.
  pub Tended-update :
      (t : Table) (m : ℕ) (q : Proc)
      → Tended slot_addr init t
      → (m ≡ init → (is_alive q.state ≡ true) × (q.parent ≡ none))
      → q.parent ≢ some m
      → ((i : ℕ)
          → i < nproc
          → i ≢ m
          → q.parent ≡ some i
          → q.state ≡ zombie
          → ¬ SleepsOn (slot_addr i) (t i))
      → (SleepsOn (slot_addr m) q
          → (j : ℕ) → j < nproc
          → j ≢ m
          → (t j).parent ≡ some m
          → (t j).state ≢ zombie)
      → Tended slot_addr init (update t m q)
  Tended-update t m q d at_init self dies falls = record {
    init_alive =
        by_slot init (λ p. is_alive p.state ≡ true) (λ e. (at_init (sym e)).0) (λ _. d.init_alive);
    orphan = by_slot init (λ p. p.parent ≡ none) (λ e. (at_init (sym e)).1) (λ _. d.orphan);
    apart = λ i lt.
        by_slot i (λ p. p.parent ≢ some i) (λ e. subst (λ n. q.parent ≢ some n) (sym e) self)
          (λ _. d.apart i lt);
    tended = λ i j li lj.
        by_slot j
          (λ p. p.parent ≡ some i → p.state ≡ zombie → ¬ SleepsOn (slot_addr i) (update t m q i))
          (λ e.
            by_slot i (λ p. q.parent ≡ some i → q.state ≡ zombie → ¬ SleepsOn (slot_addr i) p)
              (λ f mine z s. subst (λ n. q.parent ≢ some n) (sym f) self mine)
              (λ ne mine z. dies i li ne mine z))
          (λ ne.
            by_slot i
              (λ p. (t j).parent ≡ some i → (t j).state ≡ zombie → ¬ SleepsOn (slot_addr i) p)
              (λ f mine z s.
                falls (subst (λ n. SleepsOn (slot_addr n) q) f s) j lj ne
                  (subst (λ n. (t j).parent ≡ some n) f mine) z)
              (λ _ mine z. d.tended i j li lj mine z));
  }
    where
      by_slot : (j : ℕ) (P : Proc → Type 0) → (j ≡ m → P q) → (j ≢ m → P (t j)) → P (update t m q j)
      by_slot j P here other = elim (Bool-cases (j == m)) [
        | inl e ↦
            subst P (sym (ap (update t m q) (==→eq j m e) ∙ update_self t m q m refl))
              (here (==→eq j m e))
        | inr e ↦ subst P (sym (update-ne t m q j (==→ne j m e))) (other (==→ne j m e))
      ]

  -- A change that keeps the parent, makes no zombie and puts nobody to sleep on his own slot.
  pub quiet-Tended :
      (t : Table) (m : ℕ) (q : Proc)
      → m < nproc
      → Tended slot_addr init t
      → (is_alive (t m).state ≡ true → is_alive q.state ≡ true)
      → (q.parent ≡ (t m).parent) ⊎ (q.parent ≡ none)
      → (q.state ≡ zombie → (t m).state ≡ zombie)
      → (SleepsOn (slot_addr m) q → SleepsOn (slot_addr m) (t m))
      → Tended slot_addr init (update t m q)
  quiet-Tended t m q lt d alive parent dead asleep =
      Tended-update t m q d
        (λ e. (
          alive (ap (λ n. is_alive (t n).state) e ∙ d.init_alive),
          elim parent [ inl same ↦ same ∙ ap (λ n. (t n).parent) e ∙ d.orphan | inr gone ↦ gone ],
        ))
        (λ f. d.apart m lt (before m f))
        (λ i li ne mine z. d.tended i m li lt (before i mine) (dead z))
        (λ s j lj ne mine z. d.tended m j lt lj mine z (asleep s))
    where
      before : (i : ℕ) → q.parent ≡ some i → (t m).parent ≡ some i
      before i f = elim parent [
        | inl same ↦ sym same ∙ f
        | inr gone ↦ absurd (none-ne_some i (sym gone ∙ f))
      ]

  -- Slots are woken or given to init; if init gets a zombie, it is awake afterwards.
  pub Passed-Tended :
      (me : ℕ) (t u : Table)
      → Tended slot_addr init t
      → ((j : ℕ) → j < nproc → Passed init me (t j) (u j))
      → ((j : ℕ)
          → j < nproc
          → (t j).parent ≡ some me
          → (u j).parent ≡ some init
          → (t j).state ≡ zombie
          → ¬ SleepsOn (slot_addr init) (u init))
      → Tended slot_addr init u
  Passed-Tended me t u d p adopts = record {
    init_alive = (p init lt_init).alive_after d.init_alive;
    orphan = elim (p init lt_init).adopted [
      | inl same ↦ same ∙ d.orphan
      | inr (mine, _) ↦ absurd (none-ne_some me (sym d.orphan ∙ mine))
    ];
    apart = λ i lt e. elim (p i lt).adopted [
      | inl same ↦ d.apart i lt (sym same ∙ e)
      | inr (mine, now) ↦
          none-ne_some me (sym d.orphan ∙ ap (λ n. (t n).parent) (some_eq (sym now ∙ e)) ∙ mine)
    ];
    tended = λ i j li lj mine z s. elim (p j lj).adopted [
      | inl same ↦
          d.tended i j li lj (sym same ∙ mine) ((p j lj).zombie_before z)
            ((p i li).asleep_before (slot_addr i) s)
      | inr (old, now) ↦
          adopts j lj old now ((p j lj).zombie_before z)
            (subst (λ n. SleepsOn (slot_addr n) (u n)) (sym (some_eq (sym now ∙ mine))) s)
    ];
  }
