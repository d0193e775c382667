-- ===== src/Stock/Order.antt =====
-- The tree of stocks as a list in the order of the ids.
use sogang_university.Shared.{◌≡◌, refl, sym, ◌∙◌, ap, arith, inl, inr, true, false, Bool-cases}
use sogang_university.Shared.{if◌then◌else◌, Option, none, some, List, [], ◌∷◌, ◌++◌, All}
use sogang_university.Shared.Int.{ℤ, eq_ℤ, ltb_ℤ, ◌≤ℤ◌, ◌<ℤ◌}
use sogang_university.Stock.{Stock, Tree, null, node, find_node, add_tree}

abbrev pub inorder : Tree → List Stock
inorder null = []
inorder (node left s right) = inorder left ++ (s ∷ inorder right)

-- Smaller ids to the left, equal and greater ids to the right.
abbrev pub IsSearch : Tree → Type 0
IsSearch null = Unit
IsSearch (node left s right) =
    All (λ (t : Stock). t.id <ℤ s.id) (inorder left)
    × All (λ (t : Stock). s.id ≤ℤ t.id) (inorder right)
    × IsSearch left
    × IsSearch right

abbrev pub IsSorted : List Stock → Type 0
IsSorted [] = Unit
IsSorted (s ∷ l) = All (λ (t : Stock). s.id ≤ℤ t.id) l × IsSorted l

-- Behind every stock whose id is not greater.
abbrev pub insert_stock : Stock → List Stock → List Stock
insert_stock s [] = s ∷ []
insert_stock s (t ∷ l) = if ltb_ℤ s.id t.id then s ∷ t ∷ l else t ∷ insert_stock s l

All-insert :
    (P : Stock → Type 0) (s : Stock) (l : List Stock) → P s → All P l → All P (insert_stock s l)
All-insert P s [] h a = (h, tt)
All-insert P s (t ∷ l) h a = elim (Bool-cases (ltb_ℤ s.id t.id)) [
  | inl e ↦ rw e (h, a)
  | inr e ↦ rw e (a.0, All-insert P s l h a.1)
]

insert-left :
    (s x : Stock) (l r : List Stock)
    → ltb_ℤ s.id x.id ≡ true
    → insert_stock s (l ++ (x ∷ r)) ≡ insert_stock s l ++ (x ∷ r)
insert-left s x [] r h = ground arith
insert-left s x (t ∷ l) r h = ground (arith, insert-left s x l r h)

insert-right :
    (s x : Stock) (l r : List Stock)
    → All (λ (t : Stock). t.id <ℤ x.id) l
    → ltb_ℤ s.id x.id ≡ false
    → insert_stock s (l ++ (x ∷ r)) ≡ l ++ (x ∷ insert_stock s r)
insert-right s x [] r a h = ground arith
insert-right s x (t ∷ l) r a h =
    let later : ltb_ℤ s.id t.id ≡ false = ground (arith, a.0) in
    rw later (ap (λ k. t ∷ k) (insert-right s x l r a.1 h))

-- `add_tree` puts the stock behind those with ids up to its own.
pub inorder-add_tree :
    (t : Tree) (s : Stock) → IsSearch t → inorder (add_tree t s) ≡ insert_stock s (inorder t)
unfolding add_tree
inorder-add_tree null s h = refl
inorder-add_tree (node left x right) s h = elim (Bool-cases (ltb_ℤ s.id x.id)) [
  | inl e ↦
      rw (e, inorder-add_tree left s h.2) (sym (insert-left s x (inorder left) (inorder right) e))
  | inr e ↦
      rw (e, inorder-add_tree right s h.3)
        (sym (insert-right s x (inorder left) (inorder right) h.0 e))
]

pub add_tree-IsSearch : (t : Tree) (s : Stock) → IsSearch t → IsSearch (add_tree t s)
unfolding add_tree
add_tree-IsSearch null s h = (tt, tt, tt, tt)
add_tree-IsSearch (node left x right) s h = elim (Bool-cases (ltb_ℤ s.id x.id)) [
  | inl e ↦ rw e (
    rw (inorder-add_tree left s h.2)
        (All-insert (λ (t : Stock). t.id <ℤ x.id) s (inorder left) (ground arith) h.0),
    h.1,
    add_tree-IsSearch left s h.2,
    h.3,
  )
  | inr e ↦ rw e (
    h.0,
    rw (inorder-add_tree right s h.3)
        (All-insert (λ (t : Stock). x.id ≤ℤ t.id) s (inorder right) (ground arith) h.1),
    h.2,
    add_tree-IsSearch right s h.3,
  )
]

-- The first stock with the id.
abbrev pub lookup : ℤ → List Stock → Option Stock
lookup id [] = none
lookup id (s ∷ l) = if eq_ℤ s.id id then some s else lookup id l

lookup-none-left :
    (id : ℤ) (l r : List Stock)
    → All (λ (t : Stock). eq_ℤ t.id id ≡ false) l
    → lookup id (l ++ r) ≡ lookup id r
lookup-none-left id [] r h = refl
lookup-none-left id (t ∷ l) r h = rw h.0 (lookup-none-left id l r h.1)

lookup-none-right :
    (id : ℤ) (l r : List Stock)
    → All (λ (t : Stock). eq_ℤ t.id id ≡ false) r
    → lookup id (l ++ r) ≡ lookup id l
lookup-none-right id [] [] h = refl
lookup-none-right id [] (t ∷ r) h = rw h.0 (lookup-none-right id [] r h.1)
lookup-none-right id (t ∷ l) r h = ground (arith, lookup-none-right id l r h)

All-map : (P Q : Stock → Type 0) → ((t : Stock) → P t → Q t) → (l : List Stock) → All P l → All Q l
All-map P Q f [] h = tt
All-map P Q f (t ∷ l) h = (f t h.0, All-map P Q f l h.1)

-- In a search tree `find_node` finds the first stock with the id in the order of the ids.
pub find_node-lookup : (t : Tree) (id : ℤ) → IsSearch t → find_node t id ≡ lookup id (inorder t)
unfolding find_node
find_node-lookup null id h = refl
find_node-lookup (node left s right) id h = elim (Bool-cases (eq_ℤ s.id id)) [
  | inl e ↦ rw e (
      sym (
        lookup-none-left id (inorder left) (s ∷ inorder right) (
          All-map (λ (t : Stock). t.id <ℤ s.id) (λ (t : Stock). eq_ℤ t.id id ≡ false)
            (λ t lt. ground arith) (inorder left) h.0)
        ∙ rw e))
  | inr e ↦ elim (Bool-cases (ltb_ℤ id s.id)) [
    | inl below ↦
        rw (e, below)
          (find_node-lookup left id h.2
            ∙ sym (
                lookup-none-right id (inorder left) (s ∷ inorder right) (
                  e,
                  All-map (λ (t : Stock). s.id ≤ℤ t.id) (λ (t : Stock). eq_ℤ t.id id ≡ false)
                      (λ t le. ground arith) (inorder right) h.1,
                )))
    | inr above ↦
        rw (e, above)
          (find_node-lookup right id h.3
            ∙ sym (
                lookup-none-left id (inorder left) (s ∷ inorder right) (
                  All-map (λ (t : Stock). t.id <ℤ s.id) (λ (t : Stock). eq_ℤ t.id id ≡ false)
                    (λ t lt. ground arith) (inorder left) h.0)
                ∙ rw e))
  ]
]
