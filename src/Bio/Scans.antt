-- ===== src/Bio/Scans.antt =====
-- The two loops of bget over the ring.
use cmpt.Prelude.{
  ℕ, zero, suc, ◌<◌, ◌≡◌, refl, sym, ap, arith, All, length, Bool, true, false, not, ◌&&◌, List, [],
  ◌∷◌, ◌==◌, Bool-cases, inl, inr, ne→==,
}
use cmpt.Bio.{Bcache, Lookup, cached, held, not_cached, head, find_cached, find_clean}
use cmpt.Bio.Chain.{Chain, Out, Cut}

module _ (c : Bcache) where
  abbrev pub holds : ℕ → ℕ → ℕ → Bool
  holds dev blockno b = (c.buf b).dev == dev && (c.buf b).blockno == blockno

  -- Neither busy nor dirty
  abbrev pub is_clean : ℕ → Bool
  is_clean b = not (c.buf b).busy && not (c.buf b).dirty

  -- What the first loop finds in a list
  pub data Hit (dev blockno : ℕ) (l : List ℕ) : Lookup → Type 0 where
    ready_one :
        (b : ℕ)
        → Cut b l
        → holds dev blockno b ≡ true
        → (c.buf b).busy ≡ false
        → Hit dev blockno l (cached b)
    busy_one :
        (b : ℕ)
        → Cut b l
        → holds dev blockno b ≡ true
        → (c.buf b).busy ≡ true
        → Hit dev blockno l (held b)
    missing : All (λ b. holds dev blockno b ≡ false) l → Hit dev blockno l not_cached

  -- What the second loop finds: the first clean buf of a list
  pub data Spare (l : List ℕ) : Lookup → Type 0 where
    spare :
        (b : ℕ) (cut : Cut b l)
        → is_clean b ≡ true
        → All (λ x. is_clean x ≡ false) cut.before
        → Spare l (cached b)
    none_spare : All (λ x. is_clean x ≡ false) l → Spare l not_cached

abbrev first_cut : (b : ℕ) (l : List ℕ) → Cut b (b ∷ l)
first_cut b l = record { before = []; after = l; whole = refl }

abbrev later_cut : (x b : ℕ) (l : List ℕ) → Cut b l → Cut b (x ∷ l)
later_cut x b l k = record {
  before = x ∷ k.before;
  after = k.after;
  whole = ap (λ y. x ∷ y) k.whole;
}

Hit-later :
    (c : Bcache) (dev blockno x : ℕ) (l : List ℕ) (o : Lookup)
    → holds c dev blockno x ≡ false
    → Hit c dev blockno l o
    → Hit c dev blockno (x ∷ l) o
Hit-later c dev blockno x l _ q (ready_one b k h f) = ready_one b (later_cut x b l k) h f
Hit-later c dev blockno x l _ q (busy_one b k h f) = busy_one b (later_cut x b l k) h f
Hit-later c dev blockno x l _ q (missing all) = missing (q, all)

Spare-later :
    (c : Bcache) (x : ℕ) (l : List ℕ) (o : Lookup)
    → is_clean c x ≡ false
    → Spare c l o
    → Spare c (x ∷ l) o
Spare-later c x l _ q (spare b k h all) = spare b (later_cut x b l k) h (q, all)
Spare-later c x l _ q (none_spare all) = none_spare (q, all)

pub find_cached-Hit :
    (c : Bcache) (dev blockno n a : ℕ) (l : List ℕ)
    → length l < n
    → Out head l
    → Chain c.next c.prev a l head
    → Hit c dev blockno l (find_cached n (c.next a) dev blockno c)
unfolding find_cached
find_cached-Hit c dev blockno zero a l lt o k = absurd (omega (arith, lt))
find_cached-Hit c dev blockno (suc n) a [] lt o (e, f) = rw e (missing tt)
find_cached-Hit c dev blockno (suc n) a (x ∷ l) lt (ne, o) (e, f, k) =
    let rest = find_cached-Hit c dev blockno n x l (omega (arith, lt)) o k in
    rw (e, ne→== x head (λ q. ne (sym q)))
      (elim (Bool-cases (holds c dev blockno x)) [
        | inl h ↦ elim (Bool-cases (c.buf x).busy) [
          | inl b ↦ rw (h, b) (busy_one x (first_cut x l) h b)
          | inr b ↦ rw (h, b) (ready_one x (first_cut x l) h b)
        ]
        | inr h ↦ rw h (Hit-later c dev blockno x l _ h rest)
      ])

pub find_clean-Spare :
    (c : Bcache) (n a : ℕ) (l : List ℕ)
    → length l < n
    → Out head l
    → Chain c.prev c.next a l head
    → Spare c l (find_clean n (c.prev a) c)
unfolding find_clean
find_clean-Spare c zero a l lt o k = absurd (omega (arith, lt))
find_clean-Spare c (suc n) a [] lt o (e, f) = rw e (none_spare tt)
find_clean-Spare c (suc n) a (x ∷ l) lt (ne, o) (e, f, k) =
    let rest = find_clean-Spare c n x l (omega (arith, lt)) o k in
    rw (e, ne→== x head (λ q. ne (sym q)))
      (elim (Bool-cases (is_clean c x)) [
        | inl h ↦ rw h (spare x (first_cut x l) h tt)
        | inr h ↦ rw h (Spare-later c x l _ h rest)
      ])
