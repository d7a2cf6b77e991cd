-- ===== src/Bio/Chain.antt =====
-- Doubly linked lists: chains from one node to another, and what a change of a link does to them.
use cmpt.Prelude.{
  ℕ, length, length-append, arith, subst, ◌⊎◌, inl, inr, ==→eq, ==→ne, Bool-cases, ◌≡◌, ◌≢◌, refl,
  sym, ◌∙◌, ap, All, List, [], ◌∷◌, ◌++◌, ◌==◌, update, update-ne, update_self,
}
use mathlib.Core.List.{append-nil}

module _ (next prev : ℕ → ℕ) where
  -- a, the nodes of the list, and b follow each other.
  abbrev pub Chain : ℕ → List ℕ → ℕ → Type 0
  Chain a [] b = (next a ≡ b) × (prev b ≡ a)
  Chain a (x ∷ l) b = (next a ≡ x) × (prev x ≡ a) × Chain x l b

-- x is none of the nodes.
abbrev pub Out : ℕ → List ℕ → Type 0
Out x l = All (λ y. x ≢ y) l

abbrev pub Distinct : List ℕ → Type 0
Distinct [] = Unit
Distinct (x ∷ l) = Out x l × Distinct l

pub Chain-append :
    (next prev : ℕ → ℕ) (a : ℕ) (l : List ℕ) (x : ℕ) (m : List ℕ) (b : ℕ)
    → Chain next prev a (l ++ x ∷ m) b
    → Chain next prev a l x × Chain next prev x m b
Chain-append next prev a [] x m b (e, f, c) = ((e, f), c)
Chain-append next prev a (y ∷ l) x m b (e, f, c) =
    let (p, q) = Chain-append next prev y l x m b c in ((e, f, p), q)

-- A change of next at u and of prev at v, away from the chain
pub Chain-frame :
    (next prev : ℕ → ℕ) (u i v j a : ℕ) (l : List ℕ) (b : ℕ)
    → u ≢ a
    → Out u l
    → Out v l
    → v ≢ b
    → Chain next prev a l b
    → Chain (update next u i) (update prev v j) a l b
Chain-frame next prev u i v j a [] b ua ul vl vb (e, f) =
    (update-ne next u i a (λ q. ua (sym q)) ∙ e, update-ne prev v j b (λ q. vb (sym q)) ∙ f)
Chain-frame next prev u i v j a (x ∷ l) b ua (ux, ul) (vx, vl) vb (e, f, c) = (
  update-ne next u i a (λ q. ua (sym q)) ∙ e,
  update-ne prev v j x (λ q. vx (sym q)) ∙ f,
  Chain-frame next prev u i v j x l b ux ul vl vb c,
)

Out-left : (x : ℕ) (l m : List ℕ) → Out x (l ++ m) → Out x l
Out-left x [] m o = tt
Out-left x (y ∷ l) m (ne, o) = (ne, Out-left x l m o)

pub Out-right : (x : ℕ) (l m : List ℕ) → Out x (l ++ m) → Out x m
Out-right x [] m o = o
Out-right x (y ∷ l) m (ne, o) = Out-right x l m o

-- The last node before b, and the first after a, are of the chain.
Chain-last :
    (next prev : ℕ → ℕ) (y a : ℕ) (l : List ℕ) (b : ℕ)
    → y ≢ a
    → Out y l
    → Chain next prev a l b
    → y ≢ prev b
Chain-last next prev y a [] b ne o (e, f) = λ q. ne (q ∙ f)
Chain-last next prev y a (x ∷ l) b ne (yx, o) (e, f, c) = Chain-last next prev y x l b yx o c

pub Chain-first :
    (next prev : ℕ → ℕ) (y a : ℕ) (l : List ℕ) (b : ℕ)
    → y ≢ b
    → Out y l
    → Chain next prev a l b
    → y ≢ next a
Chain-first next prev y a [] b ne o (e, f) = λ q. ne (q ∙ e)
Chain-first next prev y a (x ∷ l) b ne (yx, o) (e, f, c) = λ q. yx (q ∙ e)

-- Taking b out of a chain from a to e, which may be the same node
pub Chain-unlink :
    (next prev : ℕ → ℕ) (a : ℕ) (l : List ℕ) (b : ℕ) (m : List ℕ) (e : ℕ)
    → Out a (l ++ m)
    → Distinct (l ++ m)
    → Out e (l ++ m)
    → Chain next prev a l b
    → Chain next prev b m e
    → Chain (update next (prev b) (next b)) (update prev (next b) (prev b)) a (l ++ m) e
Chain-unlink next prev a [] b [] e oa d oe (p, q) (r, s) = (
  update_self next (prev b) (next b) a (sym q) ∙ r,
  update_self prev (next b) (prev b) e (sym r) ∙ q,
)
Chain-unlink next prev a [] b (y ∷ m) e (ay, oa) (ym, d) (ey, oe) (p, q) (r, s, c) = (
  update_self next (prev b) (next b) a (sym q) ∙ r,
  update_self prev (next b) (prev b) y (sym r) ∙ q,
  Chain-frame next prev (prev b) (next b) (next b) (prev b) y m e (λ h. ay (sym q ∙ h))
      (subst (λ z. Out z m) (sym q) oa) (subst (λ z. Out z m) (sym r) ym) (λ h. ey (sym h ∙ r)) c,
)
Chain-unlink next prev a (x ∷ l) b m e (ax, oa) (xl, d) (ex, oe) (p, q, c) t =
    let a_ne = Chain-last next prev a x l b ax (Out-left a l m oa) c in
    let x_ne = Chain-first next prev x b m e (λ h. ex (sym h)) (Out-right x l m xl) t in
    (
      update-ne next (prev b) (next b) a a_ne ∙ p,
      update-ne prev (next b) (prev b) x x_ne ∙ q,
      Chain-unlink next prev x l b m e xl d oe c t,
    )

-- Putting b behind h, into the list that leads from h back to it
pub Chain-link :
    (next prev : ℕ → ℕ) (h b : ℕ) (l : List ℕ)
    → b ≢ h
    → Out b l
    → Out h l
    → Distinct l
    → Chain next prev h l h
    → Chain (update (update next b (next h)) h b) (update (update prev b h) (next h) b) h (b ∷ l) h
Chain-link next prev h b [] bh ob oh d (e, f) = (
  update_self (update next b (next h)) h b h refl,
  update-ne (update prev b h) (next h) b b (λ q. bh (q ∙ e)) ∙ update_self prev b h b refl,
  (
    update-ne (update next b (next h)) h b b bh ∙ update_self next b (next h) b refl ∙ e,
    update_self (update prev b h) (next h) b h (sym e),
  ),
)
Chain-link next prev h b (y ∷ l) bh (by, ob) (hy, oh) (yl, d) (e, f, c) = (
  update_self (update next b (next h)) h b h refl,
  update-ne (update prev b h) (next h) b b (λ q. by (q ∙ e)) ∙ update_self prev b h b refl,
  (
    update-ne (update next b (next h)) h b b bh ∙ update_self next b (next h) b refl ∙ e,
    update_self (update prev b h) (next h) b y (sym e),
    Chain-frame (update next b (next h)) (update prev b h) h b (next h) b y l h hy oh
        (subst (λ z. Out z l) (sym e) yl) (λ q. hy (sym q ∙ e))
        (Chain-frame next prev b (next h) b h y l h by ob ob bh c),
  ),
)

-- The same list from its end
pub backwards : List ℕ → List ℕ
backwards [] = []
backwards (x ∷ l) = backwards l ++ x ∷ []

Chain-snoc :
    (next prev : ℕ → ℕ) (a : ℕ) (l : List ℕ) (x b : ℕ)
    → Chain next prev a l x
    → next x ≡ b
    → prev b ≡ x
    → Chain next prev a (l ++ x ∷ []) b
Chain-snoc next prev a [] x b (e, f) q r = (e, f, (q, r))
Chain-snoc next prev a (y ∷ l) x b (e, f, c) q r = (e, f, Chain-snoc next prev y l x b c q r)

pub Chain-backwards :
    (next prev : ℕ → ℕ) (a : ℕ) (l : List ℕ) (b : ℕ)
    → Chain next prev a l b
    → Chain prev next b (backwards l) a
unfolding backwards
Chain-backwards next prev a [] b (e, f) = (f, e)
Chain-backwards next prev a (x ∷ l) b (e, f, c) =
    Chain-snoc prev next b (backwards l) x a (Chain-backwards next prev x l b c) f e

pub length-backwards : (l : List ℕ) → length (backwards l) ≡ length l
unfolding backwards
length-backwards [] = refl
length-backwards (x ∷ l) = omega (arith, length-append (backwards l) (x ∷ []), length-backwards l)

module _ (P : ℕ → Type 0) where
  pub All-append : (l m : List ℕ) → All P l → All P m → All P (l ++ m)
  All-append [] m p q = q
  All-append (x ∷ l) m (px, p) q = (px, All-append l m p q)

  pub All-middle : (l : List ℕ) (b : ℕ) (m : List ℕ) → All P (l ++ b ∷ m) → P b × All P (l ++ m)
  All-middle [] b m (pb, p) = (pb, p)
  All-middle (x ∷ l) b m (px, p) = let (pb, q) = All-middle l b m p in (pb, (px, q))

  pub All-insert : (l : List ℕ) (b : ℕ) (m : List ℕ) → P b → All P (l ++ m) → All P (l ++ b ∷ m)
  All-insert [] b m pb p = (pb, p)
  All-insert (x ∷ l) b m pb (px, p) = (px, All-insert l b m pb p)

  pub All-backwards : (l : List ℕ) → All P l → All P (backwards l)
  unfolding backwards
  All-backwards [] p = tt
  All-backwards (x ∷ l) (px, p) = All-append (backwards l) (x ∷ []) (All-backwards l p) (px, tt)

  pub All-forwards : (l : List ℕ) → All P (backwards l) → All P l
  unfolding backwards
  All-forwards [] p = tt
  All-forwards (x ∷ l) p =
      let (px, q) = All-middle (backwards l) x [] p in
      (px, All-forwards l (subst (All P) (append-nil _) q))

pub Distinct-middle :
    (l : List ℕ) (b : ℕ) (m : List ℕ) → Distinct (l ++ b ∷ m) → Out b (l ++ m) × Distinct (l ++ m)
Distinct-middle [] b m (o, d) = (o, d)
Distinct-middle (x ∷ l) b m (o, d) =
    let (ob, e) = Distinct-middle l b m d in
    let (ne, ox) = All-middle (λ y. x ≢ y) l b m o in ((λ q. ne (sym q), ob), (ox, e))

-- A node of the list cuts it in two.
pub record Cut (b : ℕ) (l : List ℕ) : Type 0 where
  pub before : List ℕ
  pub after : List ℕ
  pub whole : l ≡ before ++ b ∷ after

pub cut_at : (b : ℕ) (l : List ℕ) → Out b l ⊎ Cut b l
cut_at b [] = inl tt
cut_at b (x ∷ l) = elim (Bool-cases (b == x)) [
  | inl e ↦ inr (record { before = []; after = l; whole = ap (λ y. y ∷ l) (sym (==→eq b x e)) })
  | inr ne ↦ elim (cut_at b l) [
    | inl o ↦ inl (==→ne b x ne, o)
    | inr c ↦
        inr (record { before = x ∷ c.before; after = c.after; whole = ap (λ y. x ∷ y) c.whole })
  ]
]

pub cut-Out : (b : ℕ) (l : List ℕ) → Cut b l → Out b l → ⊥
cut-Out b l c o =
    let (ne, _) = All-middle (λ y. b ≢ y) c.before b c.after (subst (Out b) c.whole o) in ne refl
