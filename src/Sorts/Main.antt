-- ===== src/Sorts/Main.antt =====
-- What `main` does to the list, whichever sort it runs.
use sogang_university.Shared.{
  ℕ, suc, ◌≤◌, ◌<◌, ◌≡◌, refl, ap, arith, inl, inr, true, Bool-cases, ◌==◌, List, [], ◌∷◌, length,
}
use sogang_university.Shared.Int.{ℤ, eq_ℤ, ◌≤ℤ◌, eq_of_parts}
use sogang_university.Sorts.{item, sort_by}
use sogang_university.Sorts.Rearranged.{one_if, count, Rearranged, IsSorted}
use sogang_university.Sorts.Quick.{quick_sort_lem}
use sogang_university.Sorts.Insertion.{insertion_sort_lem}
use sogang_university.Sorts.MergeSort.{merge_sort_lem}
use sogang_university.Sorts.Custom.{custom_sort_lem}

-- The four indices that `main` knows.
abbrev pub IsIndex : ℕ → Type 0
IsIndex index = (1 ≤ index) × (index ≤ 4)

sort_by-Rearranged :
    (index : ℕ) (xs : List ℤ)
    → IsIndex index
    → Rearranged 0 (length xs) xs (sort_by index xs) × IsSorted 0 (length xs) (sort_by index xs)
unfolding sort_by
sort_by-Rearranged index xs h = elim (Bool-cases (index == 1)) [
  | inl e1 ↦ rw e1 (
      insertion_sort_lem xs 0 (length xs) (omega arith) (omega arith)
        (λ i j il lj js. absurd (omega arith)))
  | inr e1 ↦ elim (Bool-cases (index == 2)) [
    | inl e2 ↦ rw (e1, e2) (quick_sort_lem (length xs) xs 0 (length xs) (omega arith) (omega arith))
    | inr e2 ↦ elim (Bool-cases (index == 3)) [
      | inl e3 ↦
          rw (e1, e2, e3) (merge_sort_lem (length xs) xs 0 (length xs) (omega arith) (omega arith))
      | inr e3 ↦
          let e4 : (index == 4) ≡ true = ground arith in
          rw (e1, e2, e3, e4)
            (custom_sort_lem (length xs) xs 0 (length xs) (omega arith) (omega arith)
              (λ i j il lj js. absurd (omega arith)))
    ]
  ]
]

-- Each of the four sorts ends with the items of the list, each as often as before, in order.
pub sort_by-IsSorted :
    (index : ℕ) (xs : List ℤ)
    → IsIndex index
    → IsSorted 0 (length xs) (sort_by index xs)
      × (length (sort_by index xs) ≡ length xs)
      × ((v : ℤ) → count v (sort_by index xs) ≡ count v xs)
sort_by-IsSorted index xs h =
    let (moves, sorted) = sort_by-Rearranged index xs h in (sorted, moves.size, moves.counts)

-- A value that occurs has a place.
count-item : (v : ℤ) (xs : List ℤ) → 0 < count v xs → (i : ℕ) × (i < length xs) × (item xs i ≡ v)
count-item v [] h = absurd (omega arith)
count-item v (x ∷ xs) h = elim (Bool-cases (eq_ℤ v x)) [
  | inl e ↦ (0, omega arith, ground arith)
  | inr e ↦ let (i, l, same) = count-item v xs (ground arith) in (suc i, omega arith, same)
]

-- The head is at most whatever occurs.
head_low :
    (x v : ℤ) (xs : List ℤ) → IsSorted 0 (suc (length xs)) (x ∷ xs) → 0 < count v (x ∷ xs) → x ≤ℤ v
head_low x v xs sorted h =
    let (i, l, same) = count-item v (x ∷ xs) h in
    rw (← same) (sorted 0 i (omega arith) (omega arith) l)

one_if_self : (v : ℤ) → one_if v v ≡ 1
one_if_self v = ground arith

-- There is one order only.
pub IsSorted-unique :
    (xs ys : List ℤ)
    → length xs ≡ length ys
    → IsSorted 0 (length xs) xs
    → IsSorted 0 (length ys) ys
    → ((v : ℤ) → count v xs ≡ count v ys)
    → xs ≡ ys
IsSorted-unique [] [] e hx hy c = refl
IsSorted-unique [] (y ∷ ys) e hx hy c = absurd (omega arith)
IsSorted-unique (x ∷ xs) [] e hx hy c = absurd (omega arith)
IsSorted-unique (x ∷ xs) (y ∷ ys) e hx hy c =
    let xy = head_low x y xs hx (omega (arith, c y, one_if_self y)) in
    let yx = head_low y x ys hy (omega (arith, c x, one_if_self x)) in
    let heads : x ≡ y = omega (arith, eq_of_parts) in
    let tails =
      IsSorted-unique xs ys (omega arith)
        (λ i j l le s. hx (suc i) (suc j) (omega arith) (omega arith) (omega arith))
        (λ i j l le s. hy (suc i) (suc j) (omega arith) (omega arith) (omega arith))
        (λ v. let same = ap (one_if v) heads in omega (arith, c v, same)) in
    rw (heads, tails) refl
