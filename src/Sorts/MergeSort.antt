-- ===== src/Sorts/MergeSort.antt =====
-- `merge` writes the merged items back, and `merge_sort`.
use sogang_university.Shared.{
  ℕ, zero, suc, ◌+◌, ◌-◌, ◌/◌, ◌≤◌, ◌<◌, ◌≡◌, ◌⊎◌, refl, sym, ap, ◌∙◌, arith, inl, inr, Bool-cases,
  ltb, List, [], ◌∷◌, set, length, length-set, get_or-set_self, get_or-set_ne,
}
use mathlib.Core.Path.{subst}
use sogang_university.Shared.Int.{ℤ, pos}
use sogang_university.Sorts.{item, segment, merge_loop, copy_back, merge, merge_sort}
use sogang_university.Sorts.Rearranged.{
  count, count-set, Rearranged, Rearranged-refl, Rearranged-trans, Rearranged-widen, IsSorted,
}
use sogang_university.Sorts.Quick.{IsSorted-short}
use sogang_university.Sorts.Merge.{Merged, merge_loop-Merged, count-segment_split}

length-copy_back : (xs : List ℤ) (i : ℕ) (out : List ℤ) → length (copy_back xs i out) ≡ length xs
unfolding copy_back
length-copy_back xs i [] = refl
length-copy_back xs i (v ∷ out) = length-copy_back (set xs i v) (i + 1) out ∙ length-set xs i v

copy_back_outside :
    (xs : List ℤ) (i : ℕ) (out : List ℤ) (k : ℕ)
    → k < i ⊎ i + length out ≤ k
    → item (copy_back xs i out) k ≡ item xs k
unfolding copy_back
copy_back_outside xs i [] k h = refl
copy_back_outside xs i (v ∷ out) k h =
    copy_back_outside (set xs i v) (i + 1) out k
      (elim h [ inl a ↦ inl (omega arith) | inr a ↦ inr (omega arith) ])
    ∙ get_or-set_ne xs i k v (pos 0) (elim h [ inl a ↦ omega arith | inr a ↦ omega arith ])

copy_back_inside :
    (xs : List ℤ) (i : ℕ) (out : List ℤ) (k : ℕ)
    → k < length out
    → i + length out ≤ length xs
    → item (copy_back xs i out) (i + k) ≡ item out k
unfolding copy_back
copy_back_inside xs i [] k h fits = absurd (omega arith)
copy_back_inside xs i (v ∷ out) zero h fits =
    let same : i + 0 ≡ i = omega arith in
    rw same (
      copy_back_outside (set xs i v) (i + 1) out i (inl (omega arith))
      ∙ get_or-set_self xs i v (pos 0) (omega arith))
copy_back_inside xs i (v ∷ out) (suc k) h fits =
    let same : i + suc k ≡ i + 1 + k = omega arith in
    rw same
      (copy_back_inside (set xs i v) (i + 1) out k (omega arith) (omega (arith, length-set xs i v)))

segment-set :
    (xs : List ℤ) (i : ℕ) (v : ℤ) (from n : ℕ)
    → i < from
    → segment (set xs i v) from n ≡ segment xs from n
segment-set xs i v from zero h = refl
segment-set xs i v from (suc n) h =
    rw
      (
        get_or-set_ne xs i from v (pos 0) (omega arith),
        segment-set xs i v (from + 1) n (omega arith),
      )
      refl

count-copy_back :
    (v : ℤ) (xs : List ℤ) (i : ℕ) (out : List ℤ)
    → i + length out ≤ length xs
    → count v (copy_back xs i out) + count v (segment xs i (length out)) ≡ count v xs + count v out
unfolding copy_back
count-copy_back v xs i [] fits = refl
count-copy_back v xs i (w ∷ out) fits =
    let later = ap (count v) (segment-set xs i w (i + 1) (length out) (omega arith)) in
    omega (
      arith,
      later,
      count-set v xs i w (omega arith),
      count-copy_back v (set xs i w) (i + 1) out (omega (arith, length-set xs i w)),
    )

-- Two ranges in order, one behind the other, become one.
pub merge_lem :
    (xs : List ℤ) (left mid stop : ℕ)
    → left ≤ mid
    → mid ≤ stop
    → stop ≤ length xs
    → IsSorted left mid xs
    → IsSorted mid stop xs
    → Rearranged left stop xs (merge xs left mid stop) × IsSorted left stop (merge xs left mid stop)
unfolding merge
merge_lem xs left mid stop lm ms fits sorted1 sorted2 = (moves, sorted)
  where
    n : ℕ
    n = stop - left

    out : List ℤ
    out = merge_loop n xs left mid mid stop

    h : Merged n xs left mid mid stop out
    h = merge_loop-Merged n xs left mid mid stop (omega arith) lm ms sorted1 sorted2

    at : (k : ℕ) → left ≤ k → k < stop → item (copy_back xs left out) k ≡ item out (k - left)
    at k l s =
        let same : left + (k - left) ≡ k = omega arith in
        subst (λ j. item (copy_back xs left out) j ≡ item out (k - left)) same
          (copy_back_inside xs left out (k - left) (omega (arith, h.size)) (omega (arith, h.size)))

    sorted : IsSorted left stop (copy_back xs left out)
    sorted i j l le s =
        rw (at i l (omega arith), at j (omega arith) s)
          (h.sorted (i - left) (j - left) (omega arith) (omega arith) (omega arith))

    whole :
        (v : ℤ)
        → count v (segment xs left n)
          ≡ count v (segment xs left (mid - left)) + count v (segment xs mid (stop - mid))
    whole v =
        let split : n ≡ mid - left + (stop - mid) = omega arith in
        let here : left + (mid - left) ≡ mid = omega arith in
        subst
          (λ k.
            count v (segment xs left k)
            ≡ count v (segment xs left (mid - left)) + count v (segment xs mid (stop - mid)))
          (sym split)
          (subst
            (λ m.
              count v (segment xs left (mid - left + (stop - mid)))
              ≡ count v (segment xs left (mid - left)) + count v (segment xs m (stop - mid)))
            here (count-segment_split v xs left (mid - left) (stop - mid)))

    counts : (v : ℤ) → count v (copy_back xs left out) ≡ count v xs
    counts v =
        let sized = ap (λ k. count v (segment xs left k)) h.size in
        omega
          (arith, sized, whole v, h.counts v, count-copy_back v xs left out (omega (arith, h.size)))

    moves : Rearranged left stop xs (copy_back xs left out)
    moves = record {
      size = length-copy_back xs left out;
      counts = counts;
      outside = λ i o.
          copy_back_outside xs left out i
            (elim o [ inl a ↦ inl a | inr a ↦ inr (omega (arith, h.size)) ]);
      inside = λ i l s.
          let (j, r, e) = h.inside (i - left) (omega arith) in
          (
            j,
            elim r [ inl p ↦ omega arith | inr p ↦ omega arith ],
            elim r [ inl p ↦ omega arith | inr p ↦ omega arith ],
            at i l s ∙ e,
          );
    }

pub merge_sort_lem :
    (fuel : ℕ) (xs : List ℤ) (left stop : ℕ)
    → stop - left ≤ fuel
    → stop ≤ length xs
    → Rearranged left stop xs (merge_sort fuel xs left stop)
      × IsSorted left stop (merge_sort fuel xs left stop)
unfolding merge_sort
merge_sort_lem zero xs left stop f fits =
    (Rearranged-refl left stop xs, IsSorted-short left stop xs (omega arith))
merge_sort_lem (suc fuel) xs left stop f fits = elim (Bool-cases (ltb (left + 1) stop)) [
  | inr e ↦ rw e (Rearranged-refl left stop xs, IsSorted-short left stop xs (ground arith))
  | inl e ↦
      let lt : left + 1 < stop = ground arith in
      let mid = (left + (stop - 1)) / 2 + 1 in
      let lo : left < mid = omega arith in
      let hi : mid < stop = omega arith in
      let ys = merge_sort fuel xs left mid in
      let one = merge_sort_lem fuel xs left mid (omega arith) (omega arith) in
      let zs = merge_sort fuel ys mid stop in
      let two = merge_sort_lem fuel ys mid stop (omega arith) (omega (arith, one.0.size)) in
      let three =
        merge_lem zs left mid stop (omega arith) (omega arith)
          (omega (arith, one.0.size, two.0.size))
          (λ i j l le s.
            rw (two.0.outside i (inl (omega arith)), two.0.outside j (inl s)) (one.1 i j l le s))
          two.1 in
      rw e (
        Rearranged-trans (Rearranged-widen left stop (omega arith) (omega arith) one.0) (
            Rearranged-trans (Rearranged-widen left stop (omega arith) (omega arith) two.0)
              three.0),
        three.1,
      )
]
