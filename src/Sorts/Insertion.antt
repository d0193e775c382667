-- ===== src/Sorts/Insertion.antt =====
-- `insertion_sort`. Its inner loop stops at the start of the list, not of the range, so what stands
-- before the range must not be greater.
use sogang_university.Shared.{
  ℕ, zero, suc, ◌+◌, ◌-◌, ◌≤◌, ◌<◌, ◌≡◌, ◌≢◌, refl, arith, inl, inr, false, Bool-cases, ◌==◌,
  if◌then◌else◌, dec_lt, List, set, length, length-set, get_or-set, get_or-set_self, get_or-set_ne,
  set_twice, set-get_or,
}
use mathlib.Core.Path.{subst}
use sogang_university.Shared.Int.{ℤ, pos, ltb_ℤ, ◌≤ℤ◌, ≤ℤ_refl, ≤ℤ_trans}
use sogang_university.Sorts.{item, swap, insert_down, insertion_loop, insertion_sort}
use sogang_university.Sorts.Rearranged.{
  Rearranged, Rearranged-refl, Rearranged-trans, Rearranged-widen, swap-Rearranged, IsSorted,
}

-- No item before `left` is greater than one of the range.
abbrev pub IsAbove : ℕ → ℕ → List ℤ → Type 0
IsAbove left stop xs = (i j : ℕ) → i < left → left ≤ j → j < stop → item xs i ≤ℤ item xs j

-- Apart from the place `b`, which waits for `c`, the range up to `a` is in order, and behind `b` are
-- items from `c` on.
record Hole (left b a : ℕ) (c : ℤ) (xs : List ℤ) : Type 0 where
  lo : left ≤ b
  hi : b ≤ a
  fits : a < length xs
  sorted : (i j : ℕ) → left ≤ i → i ≤ j → j ≤ a → i ≢ b → j ≢ b → item xs i ≤ℤ item xs j
  later : (j : ℕ) → b < j → j ≤ a → c ≤ℤ item xs j
  before : (i : ℕ) → i < left → item xs i ≤ℤ c

item-set :
    (xs : List ℤ) (b k : ℕ) (c : ℤ)
    → b < length xs
    → item (set xs b c) k ≡ (if b == k then c else item xs k)
item-set xs b k c h = get_or-set xs b k c (pos 0) h

-- `c` fits at `b` if it is at least all before.
Hole-fill :
    (left b a : ℕ) (c : ℤ) (xs : List ℤ)
    → Hole left b a c xs
    → ((i : ℕ) → left ≤ i → i < b → item xs i ≤ℤ c)
    → IsSorted left (a + 1) (set xs b c)
Hole-fill left b a c xs h low i j l le s = elim (Bool-cases (b == i)) [
  | inl bi ↦ elim (Bool-cases (b == j)) [
    | inl bj ↦ rw (at i, at j, bi, bj) (≤ℤ_refl c)
    | inr bj ↦ rw (at i, at j, bi, bj) (h.later j (ground arith) (omega arith))
  ]
  | inr bi ↦ elim (Bool-cases (b == j)) [
    | inl bj ↦ rw (at i, at j, bi, bj) (low i l (ground arith))
    | inr bj ↦
        rw (at i, at j, bi, bj) (h.sorted i j l le (omega arith) (ground arith) (ground arith))
  ]
]
  where
    at : (k : ℕ) → item (set xs b c) k ≡ (if b == k then c else item xs k)
    at k = item-set xs b k c (omega (arith, h.hi, h.fits))

-- A greater item moves up into the hole.
Hole-move :
    (left b a : ℕ) (c : ℤ) (xs : List ℤ)
    → left ≤ b
    → c ≤ℤ item xs b
    → Hole left (suc b) a c xs
    → Hole left b a c (set xs (suc b) (item xs b))
Hole-move left b a c xs l cb h = record {
  lo = l;
  hi = omega (arith, h.hi);
  fits = omega (arith, h.fits, length-set xs (suc b) (item xs b));
  sorted = λ i j li le ja ni nj. elim (Bool-cases (suc b == i)) [
    | inl bi ↦ elim (Bool-cases (suc b == j)) [
      | inl bj ↦ rw (at i, at j, bi, bj) (≤ℤ_refl (item xs b))
      | inr bj ↦
          rw (at i, at j, bi, bj) (h.sorted b j l (ground arith) ja (omega arith) (ground arith))
    ]
    | inr bi ↦ elim (Bool-cases (suc b == j)) [
      | inl bj ↦
          rw (at i, at j, bi, bj)
            (h.sorted i b li (ground arith) (omega (arith, h.hi)) (ground arith) (omega arith))
      | inr bj ↦ rw (at i, at j, bi, bj) (h.sorted i j li le ja (ground arith) (ground arith))
    ]
  ];
  later = λ j bj ja. elim (Bool-cases (suc b == j)) [
    | inl e ↦ rw (at j, e) cb
    | inr e ↦ rw (at j, e) (h.later j (ground arith) ja)
  ];
  before =
      λ i il. let apart : (suc b == i) ≡ false = ground arith in rw (at i, apart) (h.before i il);
}
  where
    at :
        (k : ℕ)
        → item (set xs (suc b) (item xs b)) k ≡ (if suc b == k then item xs b else item xs k)
    at k = item-set xs (suc b) k (item xs b) (omega (arith, h.hi, h.fits))

-- Filling the next hole is filling this one and a swap.
fill-swap :
    (xs : List ℤ) (b : ℕ) (c : ℤ)
    → suc b < length xs
    → set (set xs (suc b) (item xs b)) b c ≡ swap (set xs (suc b) c) (suc b) b
fill-swap xs b c fits =
    rw
      (
        get_or-set_self xs (suc b) c (pos 0) fits,
        get_or-set_ne xs (suc b) b c (pos 0) (omega arith),
        set_twice xs (suc b) c (item xs b),
      )
      refl

insert_down_lem :
    (b left a : ℕ) (c : ℤ) (xs : List ℤ)
    → Hole left b a c xs
    → IsSorted left (a + 1) (insert_down b xs c)
      × Rearranged left (a + 1) (set xs b c) (insert_down b xs c)
unfolding insert_down
insert_down_lem zero left a c xs h = (
  Hole-fill left 0 a c xs h (λ i l s. absurd (omega arith)),
  Rearranged-refl left (a + 1) (set xs 0 c),
)
insert_down_lem (suc b) left a c xs h = elim (Bool-cases (ltb_ℤ c (item xs b))) [
  | inr e ↦
      let low : item xs b ≤ℤ c = ground arith in
      rw e (
        Hole-fill left (suc b) a c xs h (λ i l s.
            ≤ℤ_trans (item xs i) (item xs b) c
              (h.sorted i b l (omega arith) (omega (arith, h.hi)) (omega arith) (omega arith)) low),
        Rearranged-refl left (a + 1) (set xs (suc b) c),
      )
  | inl e ↦ elim (dec_lt b left) [
    | yes bl ↦ let low = h.before b bl in absurd (ground arith)
    | no bl ↦
        let xs' = set xs (suc b) (item xs b) in
        let (sorted, moves) =
          insert_down_lem b left a c xs' (Hole-move left b a c xs (omega arith) (ground arith) h) in
        let one =
          swap-Rearranged left (a + 1) (set xs (suc b) c) (suc b) b (omega arith)
            (omega (arith, h.hi)) (omega arith) (omega (arith, h.hi))
            (omega (arith, h.fits, length-set xs (suc b) c)) in
        let moves' =
          subst (λ ys. Rearranged left (a + 1) ys (insert_down b xs' c))
            (fill-swap xs b c (omega (arith, h.hi, h.fits))) moves in
        rw e (sorted, Rearranged-trans one moves')
  ]
]

-- One round of the outer loop.
insert_down-IsSorted :
    (left a : ℕ) (xs : List ℤ)
    → left ≤ a
    → a < length xs
    → IsSorted left a xs
    → IsAbove left (a + 1) xs
    → IsSorted left (a + 1) (insert_down a xs (item xs a))
      × Rearranged left (a + 1) xs (insert_down a xs (item xs a))
insert_down-IsSorted left a xs l fits sorted above =
    let (sorted', moves) = insert_down_lem a left a (item xs a) xs (record {
      lo = l;
      hi = omega arith;
      fits = fits;
      sorted = λ i j li le ja ni nj. sorted i j li le (omega arith);
      later = λ j aj ja. absurd (omega arith);
      before = λ i il. above i a il l (omega arith);
    }) in
    (
      sorted',
      subst (λ ys. Rearranged left (a + 1) ys (insert_down a xs (item xs a)))
          (set-get_or xs a (pos 0)) moves,
    )

-- What is below the range stays below it.
pub IsAbove-Rearranged :
    (left stop stop' : ℕ) (xs ys : List ℤ)
    → stop ≤ stop'
    → IsAbove left stop' xs
    → Rearranged left stop xs ys
    → IsAbove left stop' ys
IsAbove-Rearranged left stop stop' xs ys le above moves i j il lj js = elim (dec_lt j stop) [
  | yes inner ↦
      let (k, lk, ks, e) = moves.inside j lj inner in
      rw (moves.outside i (inl il), e) (above i k il lk (omega arith))
  | no outer ↦
      rw (moves.outside i (inl il), moves.outside j (inr (omega arith))) (above i j il lj js)
]

insertion_loop_lem :
    (n left a stop : ℕ) (xs : List ℤ)
    → a + n ≡ stop
    → left ≤ a
    → stop ≤ length xs
    → IsSorted left a xs
    → IsAbove left stop xs
    → Rearranged left stop xs (insertion_loop n a xs) × IsSorted left stop (insertion_loop n a xs)
unfolding insertion_loop
insertion_loop_lem zero left a stop xs e l fits sorted above =
    let same : a ≡ stop = omega arith in
    (Rearranged-refl left stop xs, subst (λ k. IsSorted left k xs) same sorted)
insertion_loop_lem (suc n) left a stop xs e l fits sorted above =
    let (sorted', one) =
      insert_down-IsSorted left a xs l (omega arith) sorted
        (λ i j il lj js. above i j il lj (omega arith)) in
    let (all, done) =
      insertion_loop_lem n left (a + 1) stop (insert_down a xs (item xs a)) (omega arith)
        (omega arith) (omega (arith, one.size)) sorted'
        (IsAbove-Rearranged left (a + 1) stop xs (insert_down a xs (item xs a)) (omega arith) above
          one) in
    (Rearranged-trans (Rearranged-widen left stop (omega arith) (omega arith) one) all, done)

-- `insertion_sort` of a range that lies in the list, with nothing greater before it, leaves the range
-- in ascending order, by a rearrangement of the range alone.
pub insertion_sort_lem :
    (xs : List ℤ) (left stop : ℕ)
    → left ≤ stop
    → stop ≤ length xs
    → IsAbove left stop xs
    → Rearranged left stop xs (insertion_sort xs left stop)
      × IsSorted left stop (insertion_sort xs left stop)
unfolding insertion_sort
insertion_sort_lem xs left stop le fits above =
    insertion_loop_lem (stop - left) left left stop xs (omega arith) (omega arith) fits
      (λ i j l k s. absurd (omega arith)) above
