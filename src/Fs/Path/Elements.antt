-- ===== src/Fs/Path/Elements.antt =====
-- skipelem against the list of the elements of a path.
use cmpt.Prelude.{
  ℕ, ◌<◌, ◌≤◌, ◌≡◌, ◌≢◌, inl, inr, refl, ◌∙◌, sym, ap, arith, true, false, Option, none, some, List,
  [], ◌∷◌, length, ◌==◌, if◌then◌else◌, Bool-cases,
}
use cmpt.Fs.Directory.{dirsiz, byte_at}
use cmpt.Fs.Path.{slash, skip_slashes, split_elem, put_name, skipelem}

-- an element in front of others, unless it is empty
push : List ℕ → List (List ℕ) → List (List ℕ)
push [] es = es
push (c ∷ e) es = (c ∷ e) ∷ es

-- the element that a path begins with, and those behind it
cut : List ℕ → List ℕ × List (List ℕ)
unfolding push
cut [] = ([], [])
cut (c ∷ path) = let (e, es) = cut path in if c == slash then ([], push e es) else (c ∷ e, es)

-- the elements of a path: what stands between its slashes, less what is empty
pub elements : List ℕ → List (List ℕ)
unfolding push cut
elements path = let (e, es) = cut path in push e es

module _ (c : ℕ) (path : List ℕ) where
  skip_slash : (c == slash) ≡ true → skip_slashes (c ∷ path) ≡ skip_slashes path
  unfolding skip_slashes
  skip_slash e = rw e refl

  skip_other : (c == slash) ≡ false → skip_slashes (c ∷ path) ≡ c ∷ path
  unfolding skip_slashes
  skip_other e = rw e refl

  cut-slash : (c == slash) ≡ true → cut (c ∷ path) ≡ ([], elements path)
  unfolding cut elements
  cut-slash e = rw e refl

  cut_other : (c == slash) ≡ false → cut (c ∷ path) ≡ (c ∷ (cut path).0, (cut path).1)
  unfolding cut
  cut_other e = rw e refl

  split_slash : (c == slash) ≡ true → split_elem (c ∷ path) ≡ ([], c ∷ path)
  unfolding split_elem
  split_slash e = rw e refl

  split_other :
      (c == slash) ≡ false → split_elem (c ∷ path) ≡ (c ∷ (split_elem path).0, (split_elem path).1)
  unfolding split_elem
  split_other e = rw e refl

-- the elements, from what cut yields
pushed : List ℕ × List (List ℕ) → List (List ℕ)
unfolding push
pushed x = push x.0 x.1

elements-pushed : (path : List ℕ) → elements path ≡ pushed (cut path)
unfolding elements pushed
elements-pushed path = refl

elements-slash : (c : ℕ) (path : List ℕ) → (c == slash) ≡ true → elements (c ∷ path) ≡ elements path
unfolding pushed push
elements-slash c path e = elements-pushed (c ∷ path) ∙ ap pushed (cut-slash c path e)

elements_other :
    (c : ℕ) (path : List ℕ)
    → (c == slash) ≡ false
    → elements (c ∷ path) ≡ (c ∷ (cut path).0) ∷ (cut path).1
unfolding pushed push
elements_other c path e = elements-pushed (c ∷ path) ∙ ap pushed (cut_other c path e)

skip_slashes-elements : (path : List ℕ) → elements (skip_slashes path) ≡ elements path
unfolding skip_slashes
skip_slashes-elements [] = refl
skip_slashes-elements (c ∷ path) = elim (Bool-cases (c == slash)) [
  | inl e ↦
      ap elements (skip_slash c path e) ∙ skip_slashes-elements path ∙ sym (elements-slash c path e)
  | inr e ↦ ap elements (skip_other c path e)
]

split_elem-cut : (path : List ℕ) → cut path ≡ ((split_elem path).0, elements (split_elem path).1)
unfolding cut split_elem elements push
split_elem-cut [] = refl
split_elem-cut (c ∷ path) = elim (Bool-cases (c == slash)) [
  | inl e ↦
      cut-slash c path e
      ∙ ap (λ (x : List (List ℕ)). ([], x)) (sym (elements-slash c path e))
      ∙ ap (λ (x : List ℕ × List ℕ). (x.0, elements x.1)) (sym (split_slash c path e))
  | inr e ↦
      cut_other c path e
      ∙ ap (λ (x : List ℕ × List (List ℕ)). (c ∷ x.0, x.1)) (split_elem-cut path)
      ∙ ap (λ (x : List ℕ × List ℕ). (x.0, elements x.1)) (sym (split_other c path e))
]

skip_slashes-head : (path p : List ℕ) (c : ℕ) → skip_slashes path ≡ c ∷ p → (c == slash) ≡ false
unfolding skip_slashes
skip_slashes-head [] p c e = absurd (cc e)
skip_slashes-head (d ∷ path) p c e = elim (Bool-cases (d == slash)) [
  | inl s ↦ skip_slashes-head path p c (ground (arith, e, s))
  | inr s ↦ ground (arith, e, s)
]

length-skip_slashes : (path : List ℕ) → length (skip_slashes path) ≤ length path
unfolding skip_slashes
length-skip_slashes [] = omega arith
length-skip_slashes (c ∷ path) = elim (Bool-cases (c == slash)) [
  | inl s ↦ rw s (omega (arith, length-skip_slashes path))
  | inr s ↦ rw s (omega arith)
]

length-split_elem : (path : List ℕ) → length (split_elem path).1 ≤ length path
unfolding split_elem
length-split_elem [] = omega arith
length-split_elem (c ∷ path) = elim (Bool-cases (c == slash)) [
  | inl s ↦ rw s (omega arith)
  | inr s ↦ rw s (omega (arith, length-split_elem path))
]

-- The name buffer holds the element, cut at DIRSIZ characters, with a NUL where one fits.
pub record Named (e : List ℕ) (old name : ℕ → ℕ) : Type 0 where
  pub chars : (j : ℕ) → j < length e → j < dirsiz → name j ≡ byte_at e j
  pub nul : length e < dirsiz → name (length e) ≡ 0
  pub outside : (j : ℕ) → dirsiz ≤ j → name j ≡ old j

put_name-Named : (e : List ℕ) (old : ℕ → ℕ) → Named e old (put_name e old)
put_name-Named e old = record {
  chars = λ j le lt. ground arith;
  nul = λ lt. ground arith;
  outside = λ j le. ground arith;
}

pub data Skipped (path : List ℕ) (old : ℕ → ℕ) : Option (List ℕ × (ℕ → ℕ)) → Type 0 where
  at_end : elements path ≡ [] → Skipped path old none
  element :
      {rest : List ℕ} {name : ℕ → ℕ} (e : List ℕ)
      → elements path ≡ e ∷ elements rest
      → Named e old name
      → length rest < length path
      → ((p : List ℕ) → rest ≢ slash ∷ p)
      → Skipped path old (some (rest, name))

-- skipelem returns 0 exactly for a path without elements; else it puts the first element in the
-- name buffer and returns a shorter path, with the other elements and no slash in front.
pub skipelem-Skipped : (path : List ℕ) (old : ℕ → ℕ) → Skipped path old (skipelem path old)
unfolding skipelem pushed push cut
skipelem-Skipped path old = of (skip_slashes path) refl
  where
    nil : elements [] ≡ []
    nil = elements-pushed []

    true-ne_false : (slash == slash) ≡ false → ⊥
    true-ne_false x = ground (arith, x)

    shorter :
        (c : ℕ) (p : List ℕ) → (c == slash) ≡ false → length (split_elem (c ∷ p)).1 < length (c ∷ p)
    shorter c p f =
        omega
          (arith, ap (λ (x : List ℕ × List ℕ). length x.1) (split_other c p f), length-split_elem p)

    first :
        (c : ℕ) (p : List ℕ)
        → (c == slash) ≡ false
        → elements (c ∷ p) ≡ (split_elem (c ∷ p)).0 ∷ elements (split_elem (c ∷ p)).1
    first c p f =
        elements_other c p f
        ∙ ap (λ (x : List ℕ × List (List ℕ)). (c ∷ x.0) ∷ x.1) (split_elem-cut p)
        ∙ ap (λ (x : List ℕ × List ℕ). x.0 ∷ elements x.1) (sym (split_other c p f))

    of : (q : List ℕ) → skip_slashes path ≡ q → Skipped path old (skipelem path old)
    of [] e = rw (skipelem, e) (at_end (sym (skip_slashes-elements path) ∙ ap elements e ∙ nil))
    of (c ∷ p) e =
        let head = skip_slashes-head path p c e in
        rw (skipelem, e)
          (element (split_elem (c ∷ p)).0
            (sym (skip_slashes-elements path)
              ∙ ap elements e
              ∙ first c p head
              ∙ ap (λ x. (split_elem (c ∷ p)).0 ∷ x)
                  (sym (skip_slashes-elements (split_elem (c ∷ p)).1)))
            (put_name-Named (split_elem (c ∷ p)).0 old)
            (omega (
              arith,
              ap length e,
              length-skip_slashes path,
              shorter c p head,
              length-skip_slashes (split_elem (c ∷ p)).1,
            ))
            (λ q f. true-ne_false (skip_slashes-head (split_elem (c ∷ p)).1 q slash f)))
