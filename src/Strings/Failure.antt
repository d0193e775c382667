-- ===== src/Strings/Failure.antt =====
-- `failure` has the longest borders of the pattern's beginnings.
use sogang_university.Shared.{
  ℕ, zero, suc, ◌+◌, ◌-◌, ◌≤◌, ◌<◌, ◌≡◌, ◌≢◌, ◌⊎◌, refl, sym, ap, ◌∙◌, arith, inl, inr, Bool-cases,
  ◌==◌, ltb,
}
use mathlib.Core.Path.{subst}
use sogang_university.Strings.{fall, fail_at, write, fill}
use sogang_university.Strings.Borders.{
  Border, Longest, no-Border, Border-inner, Border-outer, Border-suc, Border-pred,
}

-- Right for the beginnings of 1 to `j` characters.
pub record IsFailure (p : ℕ → ℕ) (j : ℕ) (f : ℕ → ℕ) : Type 0 where
  pub at : (m : ℕ) → m < j → Longest p (m + 1) (f m)

-- `b` is a border of the first `j` characters, and every longer one ends before another character
-- than the pattern has at `j`.
record Candidate (p : ℕ → ℕ) (j b : ℕ) : Type 0 where
  border : Border p j b
  most : (c : ℕ) → Border p j c → p c ≡ p j → c ≤ b

fall_next :
    (p f : ℕ → ℕ) (j b : ℕ)
    → IsFailure p j f
    → Candidate p j b
    → p j ≢ p b
    → 0 < b
    → Candidate p j (f (b - 1)) × (f (b - 1) < b)
fall_next p f j b k c e l =
    let at : b - 1 + 1 ≡ b = omega (arith, l) in
    let longest =
      subst (λ n. Longest p n (f (b - 1))) at (k.at (b - 1) (omega (arith, c.border.shorter))) in
    (
      record {
        border = Border-outer p j b (f (b - 1)) c.border longest.border;
        most = λ d m g.
            let below = c.most d m g in
            let other : d ≢ b = λ h. e (sym (sym (ap p h) ∙ g)) in
            longest.most d (Border-inner p j b d c.border m (omega (arith, below, other)));
      },
      longest.border.shorter,
    )

fall_lem :
    (fuel : ℕ) (p f : ℕ → ℕ) (j b : ℕ)
    → IsFailure p j f
    → Candidate p j b
    → b ≤ fuel
    → Candidate p j (fall fuel p f j b) × ((p j ≡ p (fall fuel p f j b)) ⊎ (fall fuel p f j b ≡ 0))
unfolding fall
fall_lem zero p f j b k c l = (c, inr (omega (arith, l)))
fall_lem (suc fuel) p f j b k c l = elim (Bool-cases (p j == p b)) [
  | inl e ↦ rw e (c, inl (ground (arith, e)))
  | inr e ↦ elim (Bool-cases (ltb 0 b)) [
    | inl g ↦
        let (c', less) = fall_next p f j b k c (λ h. ground (arith, e, h)) (ground (arith, g)) in
        rw (e, g) (fall_lem fuel p f j (f (b - 1)) k c' (omega (arith, less, l)))
    | inr g ↦ rw (e, g) (c, inr (ground (arith, g)))
  ]
]

-- A border of one character more, without its last.
pred_cases :
    (p : ℕ → ℕ) (j c : ℕ)
    → Border p (j + 1) c
    → (c ≡ 0) ⊎ (Border p j (c - 1) × (p j ≡ p (c - 1)) × (0 < c))
pred_cases p j zero k = inl refl
pred_cases p j (suc c) k =
    let at : c + 1 ≡ suc c = omega arith in
    let at' : suc c - 1 ≡ c = omega arith in
    let (m, e) = Border-pred p j c (subst (Border p (j + 1)) (sym at) k) in
    inr (subst (Border p j) (sym at') m, e ∙ ap p (sym at'), omega arith)

fail_at_lem : (p f : ℕ → ℕ) (j : ℕ) → IsFailure p j f → 0 < j → Longest p (j + 1) (fail_at p f j)
unfolding fail_at
fail_at_lem p f j k l =
    let at : j - 1 + 1 ≡ j = omega (arith, l) in
    let start = subst (λ n. Longest p n (f (j - 1))) at (k.at (j - 1) (omega (arith, l))) in
    let b = fall j p f j (f (j - 1)) in
    let less = start.border.shorter in
    let (c, ends) =
      fall_lem j p f j (f (j - 1)) k
        (record { border = start.border; most = λ d m e. start.most d m }) (omega (arith, less)) in
    elim (Bool-cases (p j == p b)) [
      | inl e ↦ rw e (record {
        border = Border-suc p j b c.border (ground (arith, e));
        most = λ d m. elim (pred_cases p j d m) [
          | inl z ↦ omega (arith, z)
          | inr (m', g, u) ↦ let le = c.most (d - 1) m' (sym g) in omega (arith, le, u)
        ];
      })
      | inr e ↦ rw e (record {
        border = no-Border p (j + 1) (omega arith);
        most = λ d m. elim (pred_cases p j d m) [
          | inl z ↦ omega (arith, z)
          | inr (m', g, u) ↦ absurd (elim ends [
            | inl same ↦ ground (arith, e, same)
            | inr z ↦
                let le = c.most (d - 1) m' (sym g) in
                let zero_d : d - 1 ≡ b = omega (arith, le, z) in
                let same = g ∙ ap p zero_d in ground (arith, e, same)
          ])
        ];
      })
    ]

write_failure :
    (p f : ℕ → ℕ) (j v : ℕ)
    → IsFailure p j f
    → Longest p (j + 1) v
    → IsFailure p (j + 1) (write j v f)
write_failure p f j v k m = record {
  at = λ q l. elim (Bool-cases (q == j)) [
    | inl e ↦
        let here : q ≡ j = ground (arith, e) in rw e (subst (λ z. Longest p (z + 1) v) (sym here) m)
    | inr e ↦ rw e (k.at q (ground (arith, e, l)))
  ];
}

pub fill_lem :
    (left : ℕ) (p f : ℕ → ℕ) (j : ℕ)
    → 0 < j
    → IsFailure p j f
    → IsFailure p (j + left) (fill left p j f)
unfolding fill
fill_lem zero p f j l k = let at : j ≡ j + 0 = omega arith in subst (λ n. IsFailure p n f) at k
fill_lem (suc left) p f j l k =
    let at : j + 1 + left ≡ j + suc left = omega arith in
    subst (λ n. IsFailure p n (fill (suc left) p j f)) at
      (fill_lem left p (write j (fail_at p f j) f) (j + 1) (omega arith)
        (write_failure p f j (fail_at p f j) k (fail_at_lem p f j k l)))

-- `failure[0]` and the loop.
pub failure_lem :
    (p left : ℕ → ℕ) (lenp : ℕ) → 0 < lenp → IsFailure p lenp (fill (lenp - 1) p 1 (write 0 0 left))
failure_lem p left lenp l =
    let at : 1 + (lenp - 1) ≡ lenp = omega (arith, l) in
    let first : Longest p 1 0 = record {
      border = no-Border p 1 (omega arith);
      most = λ c m. let less = m.shorter in omega (arith, less);
    } in
    subst (λ n. IsFailure p n (fill (lenp - 1) p 1 (write 0 0 left))) at
      (fill_lem (lenp - 1) p (write 0 0 left) 1 (omega arith)
        (write_failure p left 0 0 (record { at = λ q m. absurd (omega (arith, m)) }) first))
