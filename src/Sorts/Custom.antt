-- ===== src/Sorts/Custom.antt =====
-- `custom_sort`, which sorts short ranges by insertion.
use sogang_university.Shared.{
  ℕ, zero, suc, ◌+◌, ◌-◌, ◌≤◌, ◌<◌, ◌≡◌, arith, inl, inr, Bool-cases, ◌==◌, ltb, dec_lt, List,
  length,
}
use sogang_university.Shared.Int.{ℤ, ◌≤ℤ◌, ≤ℤ_trans}
use sogang_university.Sorts.{item, swap, middle, custom_partition, custom_sort}
use sogang_university.Sorts.Rearranged.{
  Rearranged, Rearranged-refl, Rearranged-trans, swap-Rearranged, IsSorted,
}
use sogang_university.Sorts.Quick.{IsPartition, partition_lem, IsSorted-short, IsPartition-IsSorted}
use sogang_university.Sorts.Insertion.{IsAbove, IsAbove-Rearranged, insertion_sort_lem}

middle_bounds :
    (xs : List ℤ) (left right : ℕ)
    → left ≤ right
    → (left ≤ middle xs left right) × (middle xs left right ≤ right)
unfolding middle
middle_bounds xs left right h = ground arith

custom_partition_lem :
    (xs : List ℤ) (left stop : ℕ)
    → left < stop
    → stop ≤ length xs
    → IsPartition left stop (custom_partition xs left stop).1 xs (custom_partition xs left stop).0
unfolding custom_partition
custom_partition_lem xs left stop lt fits =
    let (lo, hi) = middle_bounds xs left (stop - 1) (omega arith) in
    let one =
      swap-Rearranged left stop xs (middle xs left (stop - 1)) (stop - 1) lo (omega arith)
        (omega arith) (omega arith) fits in
    let h =
      partition_lem (swap xs (middle xs left (stop - 1)) (stop - 1)) left stop lt
        (omega (arith, one.size)) in
    record {
      lo = h.lo;
      hi = h.hi;
      below = h.below;
      above = h.above;
      moves = Rearranged-trans one h.moves;
    }

-- The part behind the pivot has nothing greater before it.
IsAbove-later :
    (left stop pivot : ℕ) (xs ys zs : List ℤ)
    → IsAbove left stop xs
    → IsPartition left stop pivot xs ys
    → Rearranged left pivot ys zs
    → IsAbove (pivot + 1) stop zs
IsAbove-later left stop pivot xs ys zs above h one i j il lj js = elim (dec_lt i left) [
  | yes outer ↦
      rw (one.outside i (inl outer), later)
        (IsAbove-Rearranged left stop stop xs ys (omega arith) above h.moves i j outer
          (omega (arith, h.lo)) js)
  | no inner ↦ rw later (elim (Bool-cases (i == pivot)) [
    | inl e ↦
        let same : i ≡ pivot = ground arith in rw (same, one.outside pivot (inr (omega arith))) high
    | inr e ↦
        let (k, lk, ks, e') = one.inside i (omega arith) (ground arith) in
        rw e' (≤ℤ_trans (item ys k) (item ys pivot) (item ys j) (h.below k lk ks) high)
  ])
]
  where
    later : item zs j ≡ item ys j
    later = one.outside j (inr (omega arith))

    high : item ys pivot ≤ℤ item ys j
    high = h.above j (omega arith) js

pub custom_sort_lem :
    (fuel : ℕ) (xs : List ℤ) (left stop : ℕ)
    → stop - left ≤ fuel
    → stop ≤ length xs
    → IsAbove left stop xs
    → Rearranged left stop xs (custom_sort fuel xs left stop)
      × IsSorted left stop (custom_sort fuel xs left stop)
unfolding custom_sort
custom_sort_lem zero xs left stop f fits above =
    (Rearranged-refl left stop xs, IsSorted-short left stop xs (omega arith))
custom_sort_lem (suc fuel) xs left stop f fits above = elim (Bool-cases (ltb (left + 1) stop)) [
  | inr e ↦ rw e (Rearranged-refl left stop xs, IsSorted-short left stop xs (ground arith))
  | inl e ↦ elim (Bool-cases (ltb (stop - 1 - left) 10)) [
    | inl few ↦ rw (e, few) (insertion_sort_lem xs left stop (ground arith) fits above)
    | inr many ↦
        let ys = (custom_partition xs left stop).0 in
        let pivot = (custom_partition xs left stop).1 in
        let h = custom_partition_lem xs left stop (ground arith) fits in
        let zs = custom_sort fuel ys left pivot in
        let above1 = IsAbove-Rearranged left stop stop xs ys (omega arith) above h.moves in
        let one =
          custom_sort_lem fuel ys left pivot (omega (arith, h.hi))
            (omega (arith, h.hi, h.moves.size))
            (λ i j il lj js. above1 i j il lj (omega (arith, h.hi))) in
        let two =
          custom_sort_lem fuel zs (pivot + 1) stop (omega (arith, h.lo))
            (omega (arith, h.moves.size, one.0.size))
            (IsAbove-later left stop pivot xs ys zs above h one.0) in
        rw (e, many)
          (IsPartition-IsSorted left stop pivot xs ys zs (custom_sort fuel zs (pivot + 1) stop) h
            one.0 one.1 two.0 two.1)
  ]
]
