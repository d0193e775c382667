-- ===== src/Sorts/Quick.antt =====
-- `partition` and `quick_sort`.
use sogang_university.Shared.{
  ℕ, zero, suc, ◌+◌, ◌-◌, ◌≤◌, ◌<◌, ◌≡◌, ◌≢◌, ◌∙◌, arith, inl, inr, true, false, Bool-cases, ◌==◌,
  ltb, if◌then◌else◌, dec_lt, List, length,
}
use mathlib.Core.Path.{subst}
use sogang_university.Shared.Int.{ℤ, ltb_ℤ, ◌≤ℤ◌, ≤ℤ_refl, ≤ℤ_trans}
use sogang_university.Sorts.{item, swap, partition_loop, partition, quick_sort}
use sogang_university.Sorts.Rearranged.{
  Rearranged, Rearranged-refl, Rearranged-trans, Rearranged-widen, item-swap, swap-Rearranged,
  IsSorted,
}

-- Up to before `i`, at most the item at `right` before `pivot` and at least that from `pivot` on.
record Split (left right i pivot : ℕ) (xs : List ℤ) : Type 0 where
  lo : left ≤ pivot
  hi : pivot ≤ i
  below : (k : ℕ) → left ≤ k → k < pivot → item xs k ≤ℤ item xs right
  above : (k : ℕ) → pivot ≤ k → k < i → item xs right ≤ℤ item xs k

-- One round that finds a smaller item.
Split-swap :
    (left right i pivot : ℕ) (xs : List ℤ)
    → i < right
    → right < length xs
    → ltb_ℤ (item xs i) (item xs right) ≡ true
    → Split left right i pivot xs
    → Split left right (i + 1) (pivot + 1) (swap xs i pivot)
Split-swap left right i pivot xs lt fits less h = record {
  lo = omega (arith, h.lo);
  hi = omega (arith, h.hi);
  below = λ k l s. elim (Bool-cases (pivot == k)) [
    | inl e ↦ rw (right_same, there k, e) (ground arith)
    | inr e ↦
        rw (right_same, other k (ground arith) (ground (arith, h.hi))) (h.below k l (ground arith))
  ];
  above = λ k l s. elim (Bool-cases (i == k)) [
    | inl e ↦
        let apart : (pivot == k) ≡ false = ground arith in
        rw (right_same, there k, apart, e) (h.above pivot (omega arith) (ground arith))
    | inr e ↦
        rw (right_same, other k (omega arith) (ground arith))
          (h.above k (omega arith) (ground arith))
  ];
}
  where
    there :
        (k : ℕ)
        → item (swap xs i pivot) k
          ≡ (if pivot == k then item xs i else if i == k then item xs pivot else item xs k)
    there k = item-swap xs i pivot k (omega arith) (omega (arith, h.hi))

    other : (k : ℕ) → pivot ≢ k → i ≢ k → item (swap xs i pivot) k ≡ item xs k
    other k np ni = there k ∙ ground arith

    right_same : item (swap xs i pivot) right ≡ item xs right
    right_same = other right (omega (arith, h.hi)) (omega arith)

-- One round that finds another.
Split-skip :
    (left right i pivot : ℕ) (xs : List ℤ)
    → ltb_ℤ (item xs i) (item xs right) ≡ false
    → Split left right i pivot xs
    → Split left right (i + 1) pivot xs
Split-skip left right i pivot xs more h = record {
  lo = h.lo;
  hi = omega (arith, h.hi);
  below = h.below;
  above = λ k l s. elim (Bool-cases (i == k)) [
    | inl e ↦ let same : i ≡ k = ground arith in rw (← same) (ground arith)
    | inr e ↦ h.above k l (ground arith)
  ];
}

partition_loop_lem :
    (n left right i pivot : ℕ) (xs : List ℤ)
    → i + n ≡ right
    → right < length xs
    → Split left right i pivot xs
    → Split left right right
        (partition_loop n right i pivot xs).1
        (partition_loop n right i pivot xs).0
      × Rearranged left right xs (partition_loop n right i pivot xs).0
unfolding partition_loop
partition_loop_lem zero left right i pivot xs e fits h =
    let same : i ≡ right = omega arith in
    (subst (λ k. Split left right k pivot xs) same h, Rearranged-refl left right xs)
partition_loop_lem (suc n) left right i pivot xs e fits h =
    elim (Bool-cases (ltb_ℤ (item xs i) (item xs right))) [
      | inl less ↦
          let one =
            swap-Rearranged left right xs i pivot (omega (arith, h.lo, h.hi)) (omega arith) h.lo
              (omega (arith, h.hi)) (omega arith) in
          let (split, all) =
            partition_loop_lem n left right (i + 1) (pivot + 1) (swap xs i pivot) (omega arith)
              (omega (arith, one.size))
              (Split-swap left right i pivot xs (omega arith) fits less h) in
          rw less (split, Rearranged-trans one all)
      | inr more ↦ rw more (
          partition_loop_lem n left right (i + 1) pivot xs (omega arith) fits
            (Split-skip left right i pivot xs more h))
    ]

-- What `partition` promises: `pivot` is in the range, and no item before it is greater and none behind
-- it is smaller than the item there.
pub record IsPartition (left stop pivot : ℕ) (xs ys : List ℤ) : Type 0 where
  pub lo : left ≤ pivot
  pub hi : pivot < stop
  pub below : (k : ℕ) → left ≤ k → k < pivot → item ys k ≤ℤ item ys pivot
  pub above : (k : ℕ) → pivot < k → k < stop → item ys pivot ≤ℤ item ys k
  pub moves : Rearranged left stop xs ys

-- The item at `right` goes between the two parts.
Split-IsPartition :
    (left right stop pivot : ℕ) (xs ys : List ℤ)
    → right + 1 ≡ stop
    → stop ≤ length xs
    → Split left right right pivot ys
    → Rearranged left right xs ys
    → IsPartition left stop pivot xs (swap ys right pivot)
Split-IsPartition left right stop pivot xs ys e fits h moves = record {
  lo = h.lo;
  hi = omega (arith, h.hi);
  below = λ k l s. rw (at_pivot, other k (omega arith) (omega (arith, h.hi))) (h.below k l s);
  above = λ k l s. elim (Bool-cases (right == k)) [
    | inl e' ↦
        let apart : (pivot == k) ≡ false = ground arith in
        rw (at_pivot, there k, apart, e') (h.above pivot (omega arith) (ground arith))
    | inr e' ↦
        rw (at_pivot, other k (omega arith) (ground arith)) (h.above k (omega arith) (ground arith))
  ];
  moves = Rearranged-trans (Rearranged-widen left stop (omega arith) (omega arith) moves) (
      swap-Rearranged left stop ys right pivot (omega (arith, h.lo, h.hi)) (omega arith) h.lo
        (omega (arith, h.hi)) (omega (arith, moves.size)));
}
  where
    there :
        (k : ℕ)
        → item (swap ys right pivot) k
          ≡ (if pivot == k then item ys right else if right == k then item ys pivot else item ys k)
    there k =
        item-swap ys right pivot k (omega (arith, moves.size)) (omega (arith, moves.size, h.hi))

    other : (k : ℕ) → pivot ≢ k → right ≢ k → item (swap ys right pivot) k ≡ item ys k
    other k np nr = there k ∙ ground arith

    at_pivot : item (swap ys right pivot) pivot ≡ item ys right
    at_pivot = there pivot ∙ ground arith

pub partition_lem :
    (xs : List ℤ) (left stop : ℕ)
    → left < stop
    → stop ≤ length xs
    → IsPartition left stop (partition xs left stop).1 xs (partition xs left stop).0
unfolding partition
partition_lem xs left stop lt fits =
    let (split, moves) =
      partition_loop_lem (stop - 1 - left) left (stop - 1) left left xs (omega arith) (omega arith)
        (record {
          lo = omega arith;
          hi = omega arith;
          below = λ k l s. absurd (omega arith);
          above = λ k l s. absurd (omega arith);
        }) in
    Split-IsPartition left (stop - 1) stop (partition xs left stop).1 xs
      (partition_loop (stop - 1 - left) (stop - 1) left left xs).0 (omega arith) fits split moves

-- A range of at most one item is in order.
pub IsSorted-short : (left stop : ℕ) (xs : List ℤ) → stop ≤ left + 1 → IsSorted left stop xs
IsSorted-short left stop xs h i j l le s =
    let same : i ≡ j = omega arith in rw same (≤ℤ_refl (item xs j))

-- Two parts in order and between them an item that bounds both.
pub IsSorted-join :
    (left pivot stop : ℕ) (xs : List ℤ)
    → IsSorted left pivot xs
    → IsSorted (pivot + 1) stop xs
    → ((k : ℕ) → left ≤ k → k < pivot → item xs k ≤ℤ item xs pivot)
    → ((k : ℕ) → pivot < k → k < stop → item xs pivot ≤ℤ item xs k)
    → IsSorted left stop xs
IsSorted-join left pivot stop xs lower upper below above i j l le s = elim (dec_lt j pivot) [
  | yes jp ↦ lower i j l le jp
  | no jp ↦ elim (dec_lt pivot i) [
    | yes pi ↦ upper i j (omega arith) le s
    | no pi ↦
        ≤ℤ_trans (item xs i) (item xs pivot) (item xs j) (first (omega arith))
          (second (omega arith))
  ]
]
  where
    first : i ≤ pivot → item xs i ≤ℤ item xs pivot
    first ip = elim (Bool-cases (i == pivot)) [
      | inl e ↦ let same : i ≡ pivot = ground arith in rw same (≤ℤ_refl (item xs pivot))
      | inr e ↦ below i l (ground arith)
    ]

    second : pivot ≤ j → item xs pivot ≤ℤ item xs j
    second pj = elim (Bool-cases (pivot == j)) [
      | inl e ↦ let same : pivot ≡ j = ground arith in rw same (≤ℤ_refl (item xs j))
      | inr e ↦ above j (ground arith) s
    ]

-- After a partition its two parts are rearranged, one after the other, into sorted ones.
pub IsPartition-IsSorted :
    (left stop pivot : ℕ) (xs ys zs ws : List ℤ)
    → IsPartition left stop pivot xs ys
    → Rearranged left pivot ys zs
    → IsSorted left pivot zs
    → Rearranged (pivot + 1) stop zs ws
    → IsSorted (pivot + 1) stop ws
    → Rearranged left stop xs ws × IsSorted left stop ws
IsPartition-IsSorted left stop pivot xs ys zs ws h one sorted1 two sorted2 = (
  Rearranged-trans h.moves (
      Rearranged-trans (Rearranged-widen left stop (omega arith) (omega (arith, h.hi)) one)
        (Rearranged-widen left stop (omega (arith, h.lo)) (omega arith) two)),
  IsSorted-join left pivot stop ws
      (λ i j l le s.
        rw (two.outside i (inl (omega arith)), two.outside j (inl (omega arith)))
          (sorted1 i j l le s))
      sorted2 below above,
)
  where
    at_pivot : item ws pivot ≡ item ys pivot
    at_pivot = two.outside pivot (inl (omega arith)) ∙ one.outside pivot (inr (omega arith))

    below : (k : ℕ) → left ≤ k → k < pivot → item ws k ≤ℤ item ws pivot
    below k l s =
        let (j, jl, js, e) = one.inside k l s in
        rw (at_pivot, two.outside k (inl (omega arith)), e) (h.below j jl js)

    above : (k : ℕ) → pivot < k → k < stop → item ws pivot ≤ℤ item ws k
    above k l s =
        let (j, jl, js, e) = two.inside k (omega arith) s in
        rw (at_pivot, e, one.outside j (inr (omega arith))) (h.above j (omega arith) js)

-- Enough fuel is the length of the range.
pub quick_sort_lem :
    (fuel : ℕ) (xs : List ℤ) (left stop : ℕ)
    → stop - left ≤ fuel
    → stop ≤ length xs
    → Rearranged left stop xs (quick_sort fuel xs left stop)
      × IsSorted left stop (quick_sort fuel xs left stop)
unfolding quick_sort
quick_sort_lem zero xs left stop f fits =
    (Rearranged-refl left stop xs, IsSorted-short left stop xs (omega arith))
quick_sort_lem (suc fuel) xs left stop f fits = elim (Bool-cases (ltb (left + 1) stop)) [
  | inr e ↦ rw e (Rearranged-refl left stop xs, IsSorted-short left stop xs (ground arith))
  | inl e ↦
      let ys = (partition xs left stop).0 in
      let pivot = (partition xs left stop).1 in
      let h = partition_lem xs left stop (ground arith) fits in
      let zs = quick_sort fuel ys left pivot in
      let one =
        quick_sort_lem fuel ys left pivot (omega (arith, h.hi))
          (omega (arith, h.hi, h.moves.size)) in
      let two =
        quick_sort_lem fuel zs (pivot + 1) stop (omega (arith, h.lo))
          (omega (arith, h.moves.size, one.0.size)) in
      rw e (
        IsPartition-IsSorted left stop pivot xs ys zs (quick_sort fuel zs (pivot + 1) stop) h one.0
          one.1 two.0 two.1)
]
