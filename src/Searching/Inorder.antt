-- ===== src/Searching/Inorder.antt =====
-- What `inorder` prints of the tree that `main` builds.
use sogang_university.Shared.{
  ◌≡◌, ◌⊎◌, refl, sym, ◌∙◌, arith, inl, inr, List, [], ◌∷◌, ◌++◌, All, All-append,
}
use sogang_university.Shared.Int.{ℤ, ◌<ℤ◌}
use mathlib.Core.Path.{subst}
use sogang_university.Searching.{Tree, leaf, node, inorder, insert, insert_all}
use sogang_university.Searching.Insert.{
  less, greater, equal, compared, insert-left, insert-right, insert-same,
}

-- Each item of a list is less than those after it.
abbrev pub Ascends : List ℤ → Type 0
Ascends [] = Unit
Ascends (x ∷ xs) = All (λ y. x <ℤ y) xs × Ascends xs

abbrev pub In : ℤ → List ℤ → Type 0
In x [] = ⊥
In x (y ∷ ys) = (x ≡ y) ⊎ In x ys

abbrev IsSearch : Tree → Type 0
IsSearch leaf = Unit
IsSearch (node l d r) =
    All (λ x. x <ℤ d) (inorder l) × All (λ x. d <ℤ x) (inorder r) × IsSearch l × IsSearch r

insert-All :
    (P : ℤ → Type 0) (t : Tree) (x : ℤ) → P x → All P (inorder t) → All P (inorder (insert t x))
unfolding insert
insert-All P leaf x p h = (p, tt)
insert-All P (node l d r) x p h =
    let (hl, hd, hr) = All-split P (inorder l) (inorder r) d h in
    elim (compared x d) [
      | less e k ↦
          rw (insert-left l d r x e)
            (All-append P (inorder (insert l x)) (d ∷ inorder r) (insert-All P l x p hl) (hd, hr))
      | greater e f k ↦
          rw (insert-right l d r x e f)
            (All-append P (inorder l) (d ∷ inorder (insert r x)) hl (hd, insert-All P r x p hr))
      | equal e f k ↦ rw (insert-same l d r x e f) h
    ]
  where
    All-split :
        (P : ℤ → Type 0) (xs ys : List ℤ) (d : ℤ)
        → All P (xs ++ (d ∷ ys))
        → All P xs × P d × All P ys
    All-split P [] ys d h = (tt, h.0, h.1)
    All-split P (x ∷ xs) ys d h = let (a, b, c) = All-split P xs ys d h.1 in ((h.0, a), b, c)

insert-IsSearch : (t : Tree) (x : ℤ) → IsSearch t → IsSearch (insert t x)
unfolding insert
insert-IsSearch leaf x k = (tt, tt, tt, tt)
insert-IsSearch (node l d r) x (a, b, kl, kr) = elim (compared x d) [
  | less e k ↦
      rw (insert-left l d r x e) (insert-All (λ z. z <ℤ d) l x k a, b, insert-IsSearch l x kl, kr)
  | greater e f k ↦
      rw (insert-right l d r x e f)
        (a, insert-All (λ z. d <ℤ z) r x k b, kl, insert-IsSearch r x kr)
  | equal e f k ↦ rw (insert-same l d r x e f) (a, b, kl, kr)
]

All-above : (d x : ℤ) (ys : List ℤ) → x <ℤ d → All (λ y. d <ℤ y) ys → All (λ y. x <ℤ y) ys
All-above d x [] l h = tt
All-above d x (y ∷ ys) l (h, k) = (omega (arith, l, h), All-above d x ys l k)

Ascends-append :
    (d : ℤ) (xs ys : List ℤ)
    → All (λ x. x <ℤ d) xs
    → Ascends xs
    → All (λ y. d <ℤ y) ys
    → Ascends ys
    → Ascends (xs ++ (d ∷ ys))
Ascends-append d [] ys h k m n = (m, n)
Ascends-append d (x ∷ xs) ys (l, h) (g, k) m n = (
  All-append (λ y. x <ℤ y) xs (d ∷ ys) g (l, All-above d x ys l m),
  Ascends-append d xs ys h k m n,
)

inorder-Ascends : (t : Tree) → IsSearch t → Ascends (inorder t)
inorder-Ascends leaf k = tt
inorder-Ascends (node l d r) (a, b, kl, kr) =
    Ascends-append d (inorder l) (inorder r) a (inorder-Ascends l kl) b (inorder-Ascends r kr)

In-split : (z d : ℤ) (xs ys : List ℤ) → In z (xs ++ (d ∷ ys)) → In z xs ⊎ ((z ≡ d) ⊎ In z ys)
In-split z d [] ys h = inr h
In-split z d (x ∷ xs) ys (inl e) = inl (inl e)
In-split z d (x ∷ xs) ys (inr h) = elim (In-split z d xs ys h) [
  | inl a ↦ inl (inr a)
  | inr b ↦ inr b
]

In-left : (z : ℤ) (xs ys : List ℤ) → In z xs → In z (xs ++ ys)
In-left z [] ys h = absurd h
In-left z (x ∷ xs) ys (inl e) = inl e
In-left z (x ∷ xs) ys (inr h) = inr (In-left z xs ys h)

In-right : (z : ℤ) (xs ys : List ℤ) → In z ys → In z (xs ++ ys)
In-right z [] ys h = h
In-right z (x ∷ xs) ys h = inr (In-right z xs ys h)

-- After an insertion the items are those before and the new one.
kept : (t : Tree) (x z : ℤ) → (z ≡ x) ⊎ In z (inorder t) → In z (inorder (insert t x))
unfolding insert
kept leaf x z (inl e) = inl e
kept leaf x z (inr h) = absurd h
kept (node l d r) x z h =
    let rest = λ (i : (z ≡ d) ⊎ In z (inorder r)) (xs : List ℤ). In-right z xs (d ∷ inorder r) i in
    elim (compared x d) [
      | less e k ↦ rw (insert-left l d r x e) (elim h [
        | inl f ↦ In-left z (inorder (insert l x)) (d ∷ inorder r) (kept l x z (inl f))
        | inr i ↦ elim (In-split z d (inorder l) (inorder r) i) [
          | inl a ↦ In-left z (inorder (insert l x)) (d ∷ inorder r) (kept l x z (inr a))
          | inr b ↦ rest b (inorder (insert l x))
        ]
      ])
      | greater e f k ↦ rw (insert-right l d r x e f) (elim h [
        | inl g ↦ In-right z (inorder l) (d ∷ inorder (insert r x)) (inr (kept r x z (inl g)))
        | inr i ↦ elim (In-split z d (inorder l) (inorder r) i) [
          | inl a ↦ In-left z (inorder l) (d ∷ inorder (insert r x)) a
          | inr (inl b) ↦ In-right z (inorder l) (d ∷ inorder (insert r x)) (inl b)
          | inr (inr b) ↦
              In-right z (inorder l) (d ∷ inorder (insert r x)) (inr (kept r x z (inr b)))
        ]
      ])
      | equal e f k ↦
          rw (insert-same l d r x e f)
            (elim h [ inl g ↦ In-right z (inorder l) (d ∷ inorder r) (inl (g ∙ k)) | inr i ↦ i ])
    ]

In-All : (P : ℤ → Type 0) (xs : List ℤ) (z : ℤ) → All P xs → In z xs → P z
In-All P [] z h i = absurd i
In-All P (x ∷ xs) z (p, h) (inl e) = subst P (sym e) p
In-All P (x ∷ xs) z (p, h) (inr i) = In-All P xs z h i

All-In : (P : ℤ → Type 0) (xs : List ℤ) → ((z : ℤ) → In z xs → P z) → All P xs
All-In P [] h = tt
All-In P (x ∷ xs) h = (h x (inl refl), All-In P xs (λ z i. h z (inr i)))

only : (t : Tree) (x z : ℤ) → In z (inorder (insert t x)) → (z ≡ x) ⊎ In z (inorder t)
only t x z =
    In-All (λ z. (z ≡ x) ⊎ In z (inorder t)) (inorder (insert t x)) z
      (insert-All (λ z. (z ≡ x) ⊎ In z (inorder t)) t x (inl refl)
        (All-In (λ z. (z ≡ x) ⊎ In z (inorder t)) (inorder t) (λ z i. inr i)))

insert_all-IsSearch : (t : Tree) (items : List ℤ) → IsSearch t → IsSearch (insert_all t items)
unfolding insert_all
insert_all-IsSearch t [] k = k
insert_all-IsSearch t (a ∷ items) k = insert_all-IsSearch (insert t a) items (insert-IsSearch t a k)

insert_all-only :
    (t : Tree) (items : List ℤ) (z : ℤ)
    → In z (inorder (insert_all t items))
    → In z (inorder t) ⊎ In z items
unfolding insert_all
insert_all-only t [] z i = inl i
insert_all-only t (a ∷ items) z i = elim (insert_all-only (insert t a) items z i) [
  | inl j ↦ elim (only t a z j) [ inl e ↦ inr (inl e) | inr k ↦ inl k ]
  | inr j ↦ inr (inr j)
]

insert_all-kept :
    (t : Tree) (items : List ℤ) (z : ℤ)
    → In z (inorder t) ⊎ In z items
    → In z (inorder (insert_all t items))
unfolding insert_all
insert_all-kept t [] z (inl i) = i
insert_all-kept t [] z (inr i) = absurd i
insert_all-kept t (a ∷ items) z (inl i) =
    insert_all-kept (insert t a) items z (inl (kept t a z (inr i)))
insert_all-kept t (a ∷ items) z (inr (inl e)) =
    insert_all-kept (insert t a) items z (inl (kept t a z (inl e)))
insert_all-kept t (a ∷ items) z (inr (inr i)) = insert_all-kept (insert t a) items z (inr i)

-- Of the tree built from any numbers, inorder prints these numbers and no others, each once and the
-- less before the greater.
pub insert_all-sorts :
    (items : List ℤ)
    → Ascends (inorder (insert_all leaf items))
      × ((z : ℤ) → In z (inorder (insert_all leaf items)) → In z items)
      × ((z : ℤ) → In z items → In z (inorder (insert_all leaf items)))
insert_all-sorts items = (
  inorder-Ascends (insert_all leaf items) (insert_all-IsSearch leaf items tt),
  λ z i. elim (insert_all-only leaf items z i) [ inl j ↦ absurd j | inr j ↦ j ],
  λ z i. insert_all-kept leaf items z (inr i),
)
