-- ===== src/Sorts/Merge.antt =====
-- `merge` and `merge_sort`.
use sogang_university.Shared.{
  ℕ, zero, suc, ◌+◌, ◌-◌, ◌≤◌, ◌<◌, ◌≡◌, ◌⊎◌, refl, ap, arith, inl, inr, Bool-cases, ◌&&◌, ltb, leb,
  List, ◌∷◌, length,
}
use sogang_university.Shared.Int.{ℤ, ltb_ℤ, ◌≤ℤ◌, ≤ℤ_refl, ≤ℤ_trans}
use sogang_university.Sorts.{item, segment, merge_loop}
use sogang_university.Sorts.Rearranged.{one_if, count, IsSorted}

pub length-segment : (xs : List ℤ) (from n : ℕ) → length (segment xs from n) ≡ n
length-segment xs from zero = refl
length-segment xs from (suc n) = ap suc (length-segment xs (from + 1) n)

item-segment :
    (xs : List ℤ) (from n i : ℕ) → i < n → item (segment xs from n) i ≡ item xs (from + i)
item-segment xs from zero i h = absurd (omega arith)
item-segment xs from (suc n) zero h = let same : from ≡ from + 0 = omega arith in rw (← same) refl
item-segment xs from (suc n) (suc i) h =
    let same : from + 1 + i ≡ from + suc i = omega arith in
    rw (← same) (item-segment xs (from + 1) n i (omega arith))

-- The first item of a segment counted apart.
count-segment :
    (v : ℤ) (xs : List ℤ) (a m : ℕ)
    → a < m
    → count v (segment xs a (m - a))
      ≡ one_if v (item xs a) + count v (segment xs (a + 1) (m - (a + 1)))
count-segment v xs a m h = let same : m - a ≡ suc (m - (a + 1)) = omega arith in rw same refl

pub count-segment_split :
    (v : ℤ) (xs : List ℤ) (a n k : ℕ)
    → count v (segment xs a (n + k)) ≡ count v (segment xs a n) + count v (segment xs (a + n) k)
count-segment_split v xs a zero k =
    let none_here : a + 0 ≡ a = omega arith in
    let all : 0 + k ≡ k = omega arith in rw (none_here, all) (omega arith)
count-segment_split v xs a (suc n) k =
    let step : suc n + k ≡ suc (n + k) = omega arith in
    let on : a + suc n ≡ a + 1 + n = omega arith in
    rw (step, on) (omega (arith, count-segment_split v xs (a + 1) n k))

abbrev pub InRanges : ℕ → ℕ → ℕ → ℕ → ℕ → Type 0
InRanges a m b s j = ((a ≤ j) × (j < m)) ⊎ ((b ≤ j) × (j < s))

-- `out` has the items of the two ranges, in order.
pub record Merged (n : ℕ) (xs : List ℤ) (a m b s : ℕ) (out : List ℤ) : Type 0 where
  pub size : length out ≡ n
  pub counts :
      (v : ℤ) → count v out ≡ count v (segment xs a (m - a)) + count v (segment xs b (s - b))
  pub inside : (i : ℕ) → i < n → (j : ℕ) × InRanges a m b s j × (item out i ≡ item xs j)
  pub sorted : IsSorted 0 n out

IsSorted-cons :
    (n : ℕ) (x : ℤ) (out : List ℤ)
    → ((i : ℕ) → i < n → x ≤ℤ item out i)
    → IsSorted 0 n out
    → IsSorted 0 (suc n) (x ∷ out)
IsSorted-cons n x out low h zero zero l le s = ≤ℤ_refl x
IsSorted-cons n x out low h zero (suc j) l le s = low j (omega arith)
IsSorted-cons n x out low h (suc i) zero l le s = absurd (omega arith)
IsSorted-cons n x out low h (suc i) (suc j) l le s = h i j (omega arith) (omega arith) (omega arith)

IsSorted-segment :
    (xs : List ℤ) (a m n : ℕ) → a + n ≡ m → IsSorted a m xs → IsSorted 0 n (segment xs a n)
IsSorted-segment xs a m n e h i j l le s =
    rw (item-segment xs a n i (omega arith), item-segment xs a n j s)
      (h (a + i) (a + j) (omega arith) (omega arith) (omega arith))

-- The next item comes from the first range, and is at most all others.
Merged-first :
    (n : ℕ) (xs : List ℤ) (a m b s : ℕ) (out : List ℤ)
    → a < m
    → ((j : ℕ) → InRanges (a + 1) m b s j → item xs a ≤ℤ item xs j)
    → Merged n xs (a + 1) m b s out
    → Merged (suc n) xs a m b s (item xs a ∷ out)
Merged-first n xs a m b s out lt low h = record {
  size = ap suc h.size;
  counts = λ v. omega (arith, h.counts v, count-segment v xs a m lt);
  inside = from;
  sorted =
      IsSorted-cons n (item xs a) out (λ i l. let (j, r, e) = h.inside i l in rw e (low j r))
        h.sorted;
}
  where
    from :
        (i : ℕ) → i < suc n → (j : ℕ) × InRanges a m b s j × (item (item xs a ∷ out) i ≡ item xs j)
    from zero l = (a, inl (omega arith), refl)
    from (suc i) l =
        let (j, r, e) = h.inside i (omega arith) in
        (j, elim r [ inl p ↦ inl (omega arith) | inr p ↦ inr (omega arith) ], e)

Merged-second :
    (n : ℕ) (xs : List ℤ) (a m b s : ℕ) (out : List ℤ)
    → b < s
    → ((j : ℕ) → InRanges a m (b + 1) s j → item xs b ≤ℤ item xs j)
    → Merged n xs a m (b + 1) s out
    → Merged (suc n) xs a m b s (item xs b ∷ out)
Merged-second n xs a m b s out lt low h = record {
  size = ap suc h.size;
  counts = λ v. omega (arith, h.counts v, count-segment v xs b s lt);
  inside = from;
  sorted =
      IsSorted-cons n (item xs b) out (λ i l. let (j, r, e) = h.inside i l in rw e (low j r))
        h.sorted;
}
  where
    from :
        (i : ℕ) → i < suc n → (j : ℕ) × InRanges a m b s j × (item (item xs b ∷ out) i ≡ item xs j)
    from zero l = (b, inr (omega arith), refl)
    from (suc i) l =
        let (j, r, e) = h.inside i (omega arith) in
        (j, elim r [ inl p ↦ inl (omega arith) | inr p ↦ inr (omega arith) ], e)

-- One of the two ranges is empty.
Merged-rest :
    (n : ℕ) (xs : List ℤ) (a m b s f : ℕ)
    → ((a ≡ m) × (f ≡ b) × (b + n ≡ s)) ⊎ ((b ≡ s) × (f ≡ a) × (a + n ≡ m))
    → IsSorted a m xs
    → IsSorted b s xs
    → Merged n xs a m b s (segment xs f n)
Merged-rest n xs a m b s f (inl (am, fb, bn)) sorted1 sorted2 =
    let here : s - b ≡ n = omega arith in
    let empty : m - a ≡ 0 = omega arith in
    record {
      size = length-segment xs f n;
      counts = λ v. rw (fb, here, empty) (omega arith);
      inside = λ i l. (f + i, inr (omega arith, omega arith), item-segment xs f n i l);
      sorted = rw fb (IsSorted-segment xs b s n bn sorted2);
    }
Merged-rest n xs a m b s f (inr (bs, fa, an)) sorted1 sorted2 =
    let here : m - a ≡ n = omega arith in
    let empty : s - b ≡ 0 = omega arith in
    record {
      size = length-segment xs f n;
      counts = λ v. rw (fa, here, empty) (omega arith);
      inside = λ i l. (f + i, inl (omega arith, omega arith), item-segment xs f n i l);
      sorted = rw fa (IsSorted-segment xs a m n an sorted1);
    }

pub merge_loop-Merged :
    (n : ℕ) (xs : List ℤ) (a m b s : ℕ)
    → n ≡ m - a + (s - b)
    → a ≤ m
    → b ≤ s
    → IsSorted a m xs
    → IsSorted b s xs
    → Merged n xs a m b s (merge_loop n xs a m b s)
unfolding merge_loop
merge_loop-Merged zero xs a m b s e am bs sorted1 sorted2 =
    Merged-rest zero xs a m b s b (inl (omega arith, refl, omega arith)) sorted1 sorted2
merge_loop-Merged (suc n) xs a m b s e am bs sorted1 sorted2 =
    elim (Bool-cases (ltb a m && ltb b s)) [
      | inl both ↦
          let am' : a < m = ground arith in
          let bs' : b < s = ground arith in
          elim (Bool-cases (ltb_ℤ (item xs a) (item xs b))) [
            | inl less ↦
                let low : item xs a ≤ℤ item xs b = ground arith in
                rw (both, less)
                  (Merged-first n xs a m b s (merge_loop n xs (a + 1) m b s) am'
                    (λ j r. elim r [
                      | inl p ↦ sorted1 a j (omega arith) (omega arith) p.1
                      | inr p ↦
                          ≤ℤ_trans (item xs a) (item xs b) (item xs j) low
                            (sorted2 b j (omega arith) p.0 p.1)
                    ])
                    (merge_loop-Merged n xs (a + 1) m b s (omega arith) (omega arith) bs
                      (λ i j l. sorted1 i j (omega arith)) sorted2))
            | inr more ↦
                let low : item xs b ≤ℤ item xs a = ground arith in
                rw (both, more)
                  (Merged-second n xs a m b s (merge_loop n xs a m (b + 1) s) bs'
                    (λ j r. elim r [
                      | inl p ↦
                          ≤ℤ_trans (item xs b) (item xs a) (item xs j) low
                            (sorted1 a j (omega arith) p.0 p.1)
                      | inr p ↦ sorted2 b j (omega arith) (omega arith) p.1
                    ])
                    (merge_loop-Merged n xs a m (b + 1) s (omega arith) am (omega arith) sorted1
                      (λ i j l. sorted2 i j (omega arith))))
          ]
      | inr one ↦ elim (Bool-cases (leb m a)) [
        | inl e1 ↦
            let same : s - b ≡ suc n = ground arith in
            rw (one, e1, same)
              (Merged-rest (suc n) xs a m b s b (inl (ground arith, refl, ground arith)) sorted1
                sorted2)
        | inr e1 ↦
            let same : m - a ≡ suc n = ground arith in
            rw (one, e1, same)
              (Merged-rest (suc n) xs a m b s a (inr (ground arith, refl, ground arith)) sorted1
                sorted2)
      ]
    ]
