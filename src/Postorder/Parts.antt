-- ===== src/Postorder/Parts.antt =====
-- The arrays of the calls of `postorder_tree`.
use sogang_university.Shared.{
  ◌≡◌, refl, ap, arith, inl, inr, Bool-cases, true, false, List, [], ◌∷◌, ◌++◌, All,
}
use sogang_university.Shared.Int.{ℤ, ltb_ℤ, ◌<ℤ◌}
use sogang_university.Postorder.{last_of, before_last, greater, others}

pub All-last : (P : ℤ → Type 0) (a : ℤ) (rest : List ℤ) → All P (a ∷ rest) → P (last_of a rest)
All-last P a [] h = h.0
All-last P a (b ∷ rest) h = All-last P b rest h.1

pub All-before :
    (P : ℤ → Type 0) (a : ℤ) (rest : List ℤ) → All P (a ∷ rest) → All P (before_last a rest)
All-before P a [] h = tt
All-before P a (b ∷ rest) h = (h.0, All-before P b rest h.1)

pub All-greater :
    (P : ℤ → Type 0) (root : ℤ) (items : List ℤ) → All P items → All P (greater root items)
All-greater P root [] h = tt
All-greater P root (a ∷ rest) h = elim (Bool-cases (ltb_ℤ root a)) [
  | inl e ↦ rw e (h.0, All-greater P root rest h.1)
  | inr e ↦ rw e (All-greater P root rest h.1)
]

pub All-others :
    (P : ℤ → Type 0) (root : ℤ) (items : List ℤ) → All P items → All P (others root items)
All-others P root [] h = tt
All-others P root (a ∷ rest) h = elim (Bool-cases (ltb_ℤ root a)) [
  | inl e ↦ rw e (All-others P root rest h.1)
  | inr e ↦ rw e (h.0, All-others P root rest h.1)
]

-- The items before the last.
pub last_of-snoc : (a : ℤ) (items : List ℤ) (d : ℤ) → last_of a (items ++ (d ∷ [])) ≡ d
last_of-snoc a [] d = refl
last_of-snoc a (b ∷ items) d = last_of-snoc b items d

pub before_last-snoc :
    (a : ℤ) (items : List ℤ) (d : ℤ) → before_last a (items ++ (d ∷ [])) ≡ a ∷ items
before_last-snoc a [] d = refl
before_last-snoc a (b ∷ items) d = ap (λ z. a ∷ z) (before_last-snoc b items d)

pub greater-append :
    (d : ℤ) (xs ys : List ℤ)
    → All (λ x. x <ℤ d) xs
    → All (λ x. d <ℤ x) ys
    → greater d (xs ++ ys) ≡ ys
greater-append d [] [] h k = refl
greater-append d [] (y ∷ ys) h (m, k) =
    let yes : ltb_ℤ d y ≡ true = ground (arith, m) in
    rw yes (ap (λ z. y ∷ z) (greater-append d [] ys h k))
greater-append d (x ∷ xs) ys (m, h) k =
    let no : ltb_ℤ d x ≡ false = ground (arith, m) in rw no (greater-append d xs ys h k)

pub others-append :
    (d : ℤ) (xs ys : List ℤ)
    → All (λ x. x <ℤ d) xs
    → All (λ x. d <ℤ x) ys
    → others d (xs ++ ys) ≡ xs
others-append d [] [] h k = refl
others-append d [] (y ∷ ys) h (m, k) =
    let yes : ltb_ℤ d y ≡ true = ground (arith, m) in rw yes (others-append d [] ys h k)
others-append d (x ∷ xs) ys (m, h) k =
    let no : ltb_ℤ d x ≡ false = ground (arith, m) in
    rw no (ap (λ z. x ∷ z) (others-append d xs ys h k))
