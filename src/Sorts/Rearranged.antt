-- ===== src/Sorts/Rearranged.antt =====
-- Lists with the same items in another order, and sorted ranges of them.
use sogang_university.Shared.{
  ℕ, zero, suc, ◌+◌, ◌≤◌, ◌<◌, ◌≡◌, ◌≢◌, ◌⊎◌, refl, ap, ◌∙◌, arith, inl, inr, Bool-cases, ◌==◌,
  if◌then◌else◌, dec_lt, List, [], ◌∷◌, set, length, length-set, get_or-set,
}
use sogang_university.Shared.Int.{ℤ, pos, eq_ℤ, ◌≤ℤ◌}
use sogang_university.Sorts.{item, swap}

-- 1 if the two are equal, else 0.
abbrev pub one_if : ℤ → ℤ → ℕ
one_if v x = if eq_ℤ v x then 1 else 0

-- How often the value occurs.
abbrev pub count : ℤ → List ℤ → ℕ
count v [] = 0
count v (x ∷ xs) = one_if v x + count v xs

pub count-set :
    (v : ℤ) (xs : List ℤ) (i : ℕ) (w : ℤ)
    → i < length xs
    → count v (set xs i w) + one_if v (item xs i) ≡ count v xs + one_if v w
count-set v [] i w h = absurd (omega arith)
count-set v (x ∷ xs) zero w h = omega arith
count-set v (x ∷ xs) (suc i) w h = omega (arith, count-set v xs i w (omega arith))

-- `ys` has the items of `xs` in another order, which differs from `left` up to before `stop` only,
-- and has only items of that range there.
pub record Rearranged (left stop : ℕ) (xs ys : List ℤ) : Type 0 where
  pub size : length ys ≡ length xs
  pub counts : (v : ℤ) → count v ys ≡ count v xs
  pub outside : (i : ℕ) → i < left ⊎ stop ≤ i → item ys i ≡ item xs i
  pub inside :
      (i : ℕ) → left ≤ i → i < stop → (j : ℕ) × (left ≤ j) × (j < stop) × (item ys i ≡ item xs j)

pub Rearranged-refl : (left stop : ℕ) (xs : List ℤ) → Rearranged left stop xs xs
Rearranged-refl left stop xs = record {
  size = refl;
  counts = λ v. refl;
  outside = λ i h. refl;
  inside = λ i l s. (i, l, s, refl);
}

pub Rearranged-trans :
    {left stop : ℕ} {xs ys zs : List ℤ}
    → Rearranged left stop xs ys
    → Rearranged left stop ys zs
    → Rearranged left stop xs zs
Rearranged-trans p q = record {
  size = q.size ∙ p.size;
  counts = λ v. q.counts v ∙ p.counts v;
  outside = λ i h. q.outside i h ∙ p.outside i h;
  inside = λ i l s.
      let (j, jl, js, e) = q.inside i l s in
      let (k, kl, ks, e') = p.inside j jl js in (k, kl, ks, e ∙ e');
}

-- In a wider range.
pub Rearranged-widen :
    {left stop : ℕ} {xs ys : List ℤ} (left' stop' : ℕ)
    → left' ≤ left
    → stop ≤ stop'
    → Rearranged left stop xs ys
    → Rearranged left' stop' xs ys
Rearranged-widen {left} {stop} {xs} {ys} left' stop' hl hs p = record {
  size = p.size;
  counts = p.counts;
  outside = λ i h. p.outside i (elim h [ inl a ↦ inl (omega arith) | inr a ↦ inr (omega arith) ]);
  inside = λ i l s. elim (dec_lt i left) [
    | yes a ↦ (i, l, s, p.outside i (inl a))
    | no a ↦ elim (dec_lt i stop) [
      | yes b ↦ let (j, jl, js, e) = p.inside i (omega arith) b in (j, omega arith, omega arith, e)
      | no b ↦ (i, l, s, p.outside i (inr (omega arith)))
    ]
  ];
}

pub item-swap :
    (xs : List ℤ) (i j k : ℕ)
    → i < length xs
    → j < length xs
    → item (swap xs i j) k ≡ (if j == k then item xs i else if i == k then item xs j else item xs k)
item-swap xs i j k hi hj =
    get_or-set (set xs i (item xs j)) j k (item xs i) (pos 0)
      (omega (arith, length-set xs i (item xs j)))
    ∙ rw (get_or-set xs i k (item xs j) (pos 0) hi) refl

pub length-swap : (xs : List ℤ) (i j : ℕ) → length (swap xs i j) ≡ length xs
length-swap xs i j = length-set (set xs i (item xs j)) j (item xs i) ∙ length-set xs i (item xs j)

swap-count :
    (v : ℤ) (xs : List ℤ) (i j : ℕ)
    → i < length xs
    → j < length xs
    → count v (swap xs i j) ≡ count v xs
swap-count v xs i j hi hj =
    let xs' = set xs i (item xs j) in
    let there : item xs' j ≡ item xs j = elim (Bool-cases (i == j)) [
      | inl e ↦
          let same : i ≡ j = ground arith in rw (get_or-set xs i j (item xs j) (pos 0) hi, e) refl
      | inr e ↦ rw (get_or-set xs i j (item xs j) (pos 0) hi, e) refl
    ] in
    let first = count-set v xs i (item xs j) hi in
    let second = count-set v xs' j (item xs i) (omega (arith, length-set xs i (item xs j))) in
    let same = ap (λ x. one_if v x) there in omega (arith, first, second, same)

pub swap-Rearranged :
    (left stop : ℕ) (xs : List ℤ) (i j : ℕ)
    → left ≤ i
    → i < stop
    → left ≤ j
    → j < stop
    → stop ≤ length xs
    → Rearranged left stop xs (swap xs i j)
swap-Rearranged left stop xs i j li si lj sj fits = record {
  size = length-swap xs i j;
  counts = λ v. swap-count v xs i j (omega arith) (omega arith);
  outside = λ k h. elim h [
    | inl a ↦ other k (omega arith) (omega arith)
    | inr a ↦ other k (omega arith) (omega arith)
  ];
  inside = λ k l s. elim (Bool-cases (j == k)) [
    | inl e ↦ (i, li, si, rw (item-swap xs i j k (omega arith) (omega arith), e) refl)
    | inr e ↦ elim (Bool-cases (i == k)) [
      | inl e' ↦ (j, lj, sj, rw (item-swap xs i j k (omega arith) (omega arith), e, e') refl)
      | inr e' ↦ (k, l, s, rw (item-swap xs i j k (omega arith) (omega arith), e, e') refl)
    ]
  ];
}
  where
    other : (k : ℕ) → i ≢ k → j ≢ k → item (swap xs i j) k ≡ item xs k
    other k ni nj = item-swap xs i j k (omega arith) (omega arith) ∙ ground arith

-- In order from `left` up to before `stop`.
abbrev pub IsSorted : ℕ → ℕ → List ℤ → Type 0
IsSorted left stop xs = (i j : ℕ) → left ≤ i → i ≤ j → j < stop → item xs i ≤ℤ item xs j
