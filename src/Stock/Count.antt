-- ===== src/Stock/Count.antt =====
-- A write through the pointer that `find_node` returned.
use sogang_university.Shared.{◌≡◌, refl, arith, inl, inr, false, Bool-cases}
use sogang_university.Shared.{
  if◌then◌else◌, Option, none, some, ◌∷◌, All, All-append, All-append_left, All-append_right,
}
use sogang_university.Shared.Int.{ℤ, eq_ℤ, ltb_ℤ, ◌≤ℤ◌, ◌<ℤ◌, eq_of_parts}
use sogang_university.Stock.{Stock, Tree, null, node, find_node, set_count}
use sogang_university.Stock.Order.{inorder, IsSearch}

abbrev pub with_count : ℤ → Option Stock → Option Stock
with_count n none = none
with_count n (some s) = some (record s { count = n })

find_node-set_count_self :
    (t : Tree) (id n : ℤ) → find_node (set_count t id n) id ≡ with_count n (find_node t id)
unfolding find_node set_count
find_node-set_count_self null id n = refl
find_node-set_count_self (node left s right) id n =
    ground (arith, find_node-set_count_self left id n, find_node-set_count_self right id n)

find_node-set_count_ne :
    (t : Tree) (id n k : ℤ) → eq_ℤ id k ≡ false → find_node (set_count t id n) k ≡ find_node t k
unfolding find_node set_count
find_node-set_count_ne null id n k h = refl
find_node-set_count_ne (node left s right) id n k h =
    ground (arith, find_node-set_count_ne left id n k h, find_node-set_count_ne right id n k h)

-- Only the stock with the id changes, and only its count.
pub find_node-set_count :
    (t : Tree) (id n k : ℤ)
    → find_node (set_count t id n) k
      ≡ (if eq_ℤ id k then with_count n (find_node t k) else find_node t k)
find_node-set_count t id n k = elim (Bool-cases (eq_ℤ id k)) [
  | inl e ↦
      let same : id ≡ k = eq_of_parts id k (ground arith) in
      rw (e, ← same) (find_node-set_count_self t id n)
  | inr e ↦ rw e (find_node-set_count_ne t id n k e)
]

pub set_count_twice : (t : Tree) (id n m : ℤ) → set_count (set_count t id n) id m ≡ set_count t id m
unfolding set_count
set_count_twice null id n m = refl
set_count_twice (node left s right) id n m =
    ground (arith, set_count_twice left id n m, set_count_twice right id n m)

pub set_count_same :
    (t : Tree) (id : ℤ) (s : Stock) → find_node t id ≡ some s → set_count t id s.count ≡ t
unfolding find_node set_count
set_count_same null id s h = refl
set_count_same (node left u right) id s h =
    ground (arith, set_count_same left id s, set_count_same right id s)

-- What the ids of a tree satisfy they satisfy afterwards.
All-set_count :
    (P : ℤ → Type 0) (t : Tree) (id n : ℤ)
    → All (λ (s : Stock). P s.id) (inorder t)
    → All (λ (s : Stock). P s.id) (inorder (set_count t id n))
unfolding set_count
All-set_count P null id n h = tt
All-set_count P (node left s right) id n h =
    let Q = λ (u : Stock). P u.id in
    let before = All-append_left Q (inorder left) (s ∷ inorder right) h in
    let after = All-append_right Q (inorder left) (s ∷ inorder right) h in
    elim (Bool-cases (eq_ℤ s.id id)) [
      | inl e ↦
          rw e (All-append Q (inorder left) (record s { count = n } ∷ inorder right) before after)
      | inr e ↦ elim (Bool-cases (ltb_ℤ id s.id)) [
        | inl below ↦
            rw (e, below)
              (All-append Q (inorder (set_count left id n)) (s ∷ inorder right)
                (All-set_count P left id n before) after)
        | inr above ↦
            rw (e, above)
              (All-append Q (inorder left) (s ∷ inorder (set_count right id n)) before
                (after.0, All-set_count P right id n after.1))
      ]
    ]

pub set_count-IsSearch : (t : Tree) (id n : ℤ) → IsSearch t → IsSearch (set_count t id n)
unfolding set_count
set_count-IsSearch null id n h = tt
set_count-IsSearch (node left s right) id n h = elim (Bool-cases (eq_ℤ s.id id)) [
  | inl e ↦ rw e h
  | inr e ↦ elim (Bool-cases (ltb_ℤ id s.id)) [
    | inl below ↦
        rw (e, below)
          (All-set_count (λ z. z <ℤ s.id) left id n h.0, h.1, set_count-IsSearch left id n h.2, h.3)
    | inr above ↦
        rw (e, above)
          (
            h.0,
            All-set_count (λ z. s.id ≤ℤ z) right id n h.1,
            h.2,
            set_count-IsSearch right id n h.3,
          )
  ]
]
