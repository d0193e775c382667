-- ===== src/Strings/Borders.antt =====
-- Borders: a beginning of a string that is an end of it too.
use sogang_university.Shared.{
  ℕ, ◌+◌, ◌-◌, ◌≤◌, ◌<◌, ◌≡◌, sym, ap, ◌∙◌, arith, inl, inr, Bool-cases, ◌==◌,
}

-- The first `b` of the first `n` characters are also the last, and not all.
pub record Border (p : ℕ → ℕ) (n b : ℕ) : Type 0 where
  pub shorter : b < n
  pub same : (t : ℕ) → t < b → p t ≡ p (n - b + t)

pub record Longest (p : ℕ → ℕ) (n b : ℕ) : Type 0 where
  pub border : Border p n b
  pub most : (c : ℕ) → Border p n c → c ≤ b

pub no-Border : (p : ℕ → ℕ) (n : ℕ) → 0 < n → Border p n 0
no-Border p n l = record { shorter = l; same = λ t m. absurd (omega (arith, m)) }

pub Border-inner : (p : ℕ → ℕ) (n b c : ℕ) → Border p n b → Border p n c → c < b → Border p b c
Border-inner p n b c k m l = record {
  shorter = l;
  same = λ t u.
      let at : n - b + (b - c + t) ≡ n - c + t = omega (arith, k.shorter, l) in
      m.same t u ∙ sym (ap p at) ∙ sym (k.same (b - c + t) (omega (arith, u, l)));
}

pub Border-outer : (p : ℕ → ℕ) (n b c : ℕ) → Border p n b → Border p b c → Border p n c
Border-outer p n b c k m = record {
  shorter = omega (arith, k.shorter, m.shorter);
  same = λ t u.
      let at : n - b + (b - c + t) ≡ n - c + t = omega (arith, k.shorter, m.shorter) in
      m.same t u ∙ k.same (b - c + t) (omega (arith, u, m.shorter)) ∙ ap p at;
}

-- One character more.
pub Border-suc : (p : ℕ → ℕ) (n b : ℕ) → Border p n b → p n ≡ p b → Border p (n + 1) (b + 1)
Border-suc p n b k e = record { shorter = omega (arith, k.shorter); same = λ t u. suc_same t u }
  where
    suc_same : (t : ℕ) → t < b + 1 → p t ≡ p (n + 1 - (b + 1) + t)
    suc_same t u = elim (Bool-cases (t == b)) [
      | inl f ↦
          let last : t ≡ b = ground (arith, f) in
          let at : n + 1 - (b + 1) + t ≡ n = omega (arith, k.shorter, last) in
          ap p last ∙ sym e ∙ sym (ap p at)
      | inr f ↦
          let at : n + 1 - (b + 1) + t ≡ n - b + t = omega arith in
          k.same t (ground (arith, f, u)) ∙ sym (ap p at)
    ]

pub Border-pred : (p : ℕ → ℕ) (n b : ℕ) → Border p (n + 1) (b + 1) → Border p n b × (p n ≡ p b)
Border-pred p n b k =
    let at : n + 1 - (b + 1) + b ≡ n = omega (arith, k.shorter) in
    (
      record {
        shorter = omega (arith, k.shorter);
        same = λ t u.
            let at' : n + 1 - (b + 1) + t ≡ n - b + t = omega arith in
            k.same t (omega (arith, u)) ∙ ap p at';
      },
      sym (k.same b (omega arith) ∙ ap p at),
    )
