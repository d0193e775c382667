-- ===== src/Strings/Rounds.antt =====
-- One round of the loop of `KMP`.
use sogang_university.Shared.{
  ℕ, ◌+◌, ◌-◌, ◌*◌, ◌≤◌, ◌<◌, ◌≡◌, ◌≢◌, sym, ap, ◌∙◌, arith, inl, inr, Bool-cases, ◌==◌, ltb,
}
use mathlib.Core.Path.{subst}
use sogang_university.Strings.{State}
use sogang_university.Strings.Borders.{Border, Longest}
use sogang_university.Strings.Failure.{IsFailure}

-- The pattern stands in the string at `o`.
pub record OccursAt (s : ℕ → ℕ) (lens : ℕ) (p : ℕ → ℕ) (lenp o : ℕ) : Type 0 where
  pub within : o + lenp ≤ lens
  pub same : (t : ℕ) → t < lenp → s (o + t) ≡ p t

pub record Occurs (s : ℕ → ℕ) (lens : ℕ) (p : ℕ → ℕ) (lenp : ℕ) : Type 0 where
  pub start : ℕ
  pub occurs : OccursAt s lens p lenp start

-- The `j` characters before `i` are the pattern's first, and it occurs nowhere before them.
pub record Partial (s : ℕ → ℕ) (lens : ℕ) (p : ℕ → ℕ) (lenp : ℕ) (x : State) : Type 0 where
  pub behind : x.j ≤ x.i
  pub in_string : x.i ≤ lens
  pub in_pattern : x.j ≤ lenp
  pub same : (t : ℕ) → t < x.j → s (x.i - x.j + t) ≡ p t
  pub none_before : (o : ℕ) → o < x.i - x.j → OccursAt s lens p lenp o → ⊥

-- What a round makes less.
abbrev pub measure : ℕ → State → ℕ
measure lens x = 2 * (lens - x.i) + x.j

module _ (s : ℕ → ℕ) (lens : ℕ) (p : ℕ → ℕ) (lenp : ℕ) (f : ℕ → ℕ)
    (right : IsFailure p lenp f) where
  -- The three rounds.
  pub same_round :
      (x : State)
      → Partial s lens p lenp x
      → x.i < lens
      → x.j < lenp
      → s x.i ≡ p x.j
      → Partial s lens p lenp (record { i = x.i + 1; j = x.j + 1; k = x.k + 1 })
  same_round x w l m e = record {
    behind = omega (arith, w.behind);
    in_string = omega (arith, l);
    in_pattern = omega (arith, m);
    same = λ t u. elim (Bool-cases (t == x.j)) [
      | inl g ↦
          let last : t ≡ x.j = ground (arith, g) in
          let at : x.i + 1 - (x.j + 1) + t ≡ x.i = omega (arith, last, w.behind) in
          ap s at ∙ e ∙ ap p (sym last)
      | inr g ↦
          let at : x.i + 1 - (x.j + 1) + t ≡ x.i - x.j + t = omega arith in
          ap s at ∙ w.same t (ground (arith, g, u))
    ];
    none_before = λ o u k. w.none_before o (omega (arith, u)) k;
  }

  pub first_round :
      (x : State)
      → Partial s lens p lenp x
      → x.i < lens
      → x.j < lenp
      → s x.i ≢ p x.j
      → x.j ≡ 0
      → Partial s lens p lenp (record { i = x.i + 1; j = x.j; k = x.k + 1 })
  first_round x w l m e z = record {
    behind = omega (arith, z);
    in_string = omega (arith, l);
    in_pattern = w.in_pattern;
    same = λ t u. absurd (omega (arith, u, z));
    none_before = λ o u k. elim (Bool-cases (ltb o x.i)) [
      | inl g ↦ w.none_before o (ground (arith, g, z)) k
      | inr g ↦ let at : o + x.j ≡ x.i = ground (arith, g, u, z) in e (ap s (sym at) ∙ k.same x.j m)
    ];
  }

  -- An occurrence between the two places where the pattern is held against the string is a border.
  shifted :
      (x : State) (o : ℕ)
      → Partial s lens p lenp x
      → x.j < lenp
      → x.i - x.j < o
      → o < x.i
      → OccursAt s lens p lenp o
      → Border p x.j (x.i - o)
  shifted x o w m u v k = record {
    shorter = omega (arith, u, v, w.behind);
    same = λ t b.
        let at : x.i - x.j + (x.j - (x.i - o) + t) ≡ o + t = omega (arith, u, v, w.behind) in
        sym (k.same t (omega (arith, b, m, u, w.behind)))
        ∙ ap s (sym at)
        ∙ w.same (x.j - (x.i - o) + t) (omega (arith, b, u, v, w.behind));
  }

  pub fail_round :
      (x : State)
      → Partial s lens p lenp x
      → x.i < lens
      → x.j < lenp
      → s x.i ≢ p x.j
      → 0 < x.j
      → Partial s lens p lenp (record { i = x.i; j = f (x.j - 1); k = x.k + 1 })
        × (f (x.j - 1) < x.j)
  fail_round x w l m e z =
      let at : x.j - 1 + 1 ≡ x.j = omega (arith, z) in
      let longest =
        subst (λ n. Longest p n (f (x.j - 1))) at (right.at (x.j - 1) (omega (arith, m))) in
      let b = f (x.j - 1) in
      let border = longest.border in
      let less = border.shorter in
      (
        record {
          behind = omega (arith, less, w.behind);
          in_string = w.in_string;
          in_pattern = omega (arith, less, m);
          same = λ t u.
              let at' : x.i - x.j + (x.j - b + t) ≡ x.i - b + t = omega (arith, less, w.behind) in
              ap s (sym at')
              ∙ w.same (x.j - b + t) (omega (arith, u, less))
              ∙ sym (border.same t u);
          none_before = λ o u k. elim (Bool-cases (ltb o (x.i - x.j))) [
            | inl g ↦ w.none_before o (ground (arith, g)) k
            | inr g ↦ elim (Bool-cases (o == (x.i - x.j))) [
              | inl h ↦
                  let at' : o + x.j ≡ x.i = ground (arith, h, w.behind) in
                  e (ap s (sym at') ∙ k.same x.j m)
              | inr h ↦
                  let past : x.i - x.j < o = ground (arith, g, h) in
                  let le = longest.most (x.i - o) (shifted x o w m past (omega (arith, u)) k) in
                  omega (arith, le, u)
            ]
          ];
        },
        less,
      )
