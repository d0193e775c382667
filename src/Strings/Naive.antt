-- ===== src/Strings/Naive.antt =====
-- `nfind` says what `KMP` says, for patterns of two characters at least.
use sogang_university.Shared.{
  ℕ, zero, suc, ◌+◌, ◌-◌, ◌≤◌, ◌<◌, ◌≡◌, ◌≢◌, ◌⊎◌, refl, sym, ap, ◌∙◌, arith, inl, inr, Bool,
  Bool-cases, ◌==◌, not, ltb, if◌then◌else◌, true, false,
}
use mathlib.Core.Path.{subst}
use sogang_university.Strings.{compare, windows, nfind, kmp}
use sogang_university.Strings.Rounds.{OccursAt, Occurs}
use sogang_university.Strings.Scan.{kmp_iff}

-- What the inner loop has found at `start`, from `j` on: the characters up to `j'` are the same, and
-- `j'` is the end or the next one differs.
record Compared (s p : ℕ → ℕ) (start j last j' : ℕ) : Type 0 where
  from : j ≤ j'
  to : j' ≤ last
  same : (t : ℕ) → j ≤ t → t < j' → s (start + t) ≡ p t
  stops : (j' ≡ last) ⊎ (s (start + j') ≢ p j')

compare_lem :
    (left : ℕ) (s p : ℕ → ℕ) (start j k : ℕ)
    → Compared s p start j (j + left) (compare left s p start j k).0
unfolding compare
compare_lem zero s p start j k = record {
  from = omega arith;
  to = omega arith;
  same = λ t l m. absurd (omega (arith, l, m));
  stops = inl (omega arith);
}
compare_lem (suc left) s p start j k = elim (Bool-cases (s (start + j) == p j)) [
  | inl e ↦
      let go = compare_lem left s p start (j + 1) (k + 1) in
      let from = go.from in
      let to = go.to in
      let stops = go.stops in
      let at : j + 1 + left ≡ j + suc left = omega arith in
      rw e (record {
        from = omega (arith, from);
        to = omega (arith, to);
        same = λ t l m. elim (Bool-cases (t == j)) [
          | inl f ↦
              let here : t ≡ j = ground (arith, f) in
              subst (λ z. s (start + z) ≡ p z) (sym here) (ground (arith, e))
          | inr f ↦ go.same t (ground (arith, f, l)) m
        ];
        stops = elim stops [ inl f ↦ inl (f ∙ at) | inr f ↦ inr f ];
      })
  | inr e ↦ rw e (record {
    from = omega arith;
    to = omega arith;
    same = λ t l m. absurd (omega (arith, l, m));
    stops = inr (λ h. ground (arith, e, h));
  })
]

module _ (s : ℕ → ℕ) (lens : ℕ) (p : ℕ → ℕ) (last : ℕ) (some : 0 < last) where
  -- What the loop answers about the places from `start` on.
  record Answers (start : ℕ) (r : Bool × ℕ × ℕ) : Type 0 where
    yes : r.0 ≡ true → Occurs s lens p (last + 1)
    no : r.0 ≡ false → (o : ℕ) → start ≤ o → OccursAt s lens p (last + 1) o → ⊥
    ends : r.0 ≡ false → r.1 ≢ last
    at_end : r.0 ≡ true → r.1 ≡ last

  -- The test of one window: `j` after it.
  record Window (start j' : ℕ) : Type 0 where
    hit : j' ≡ last → (t : ℕ) → t < last + 1 → s (start + t) ≡ p t
    miss : j' ≢ last → ((t : ℕ) → t < last + 1 → s (start + t) ≡ p t) → ⊥

  windows_step :
      (start j k : ℕ)
      → j ≢ last
      → Window start
          (if s (start + last) == p last then compare last s p start 0 (k + 1) else (j, k + 1)).0
  windows_step start j k n = elim (Bool-cases (s (start + last) == p last)) [
    | inl e ↦
        let go = compare_lem last s p start 0 (k + 1) in
        let stops = go.stops in
        let to = go.to in
        rw e (record {
          hit = λ f t l. elim (Bool-cases (t == last)) [
            | inl g ↦
                let here : t ≡ last = ground (arith, g) in
                subst (λ z. s (start + z) ≡ p z) (sym here) (ground (arith, e))
            | inr g ↦ go.same t (omega arith) (ground (arith, g, l, f))
          ];
          miss = λ f all. elim stops [
            | inl g ↦ f (g ∙ omega arith)
            | inr g ↦ g (all (compare last s p start 0 (k + 1)).0 (omega (arith, to)))
          ];
        })
    | inr e ↦ rw e (record {
      hit = λ f. absurd (n f);
      miss = λ f all. let same = all last (omega arith) in ground (arith, e, same);
    })
  ]

  windows_lem :
      (fuel start j k : ℕ)
      → j ≢ last
      → lens ≤ start + last + fuel
      → Answers start (windows fuel s lens p last start j k)
  unfolding windows
  windows_lem zero start j k n l = record {
    yes = λ e. absurd (ground (arith, e));
    no = λ e o m at. let within = at.within in omega (arith, within, m, l);
    ends = λ e. n;
    at_end = λ e. absurd (ground (arith, e));
  }
  windows_lem (suc fuel) start j k n l =
      let r = if s (start + last) == p last then compare last s p start 0 (k + 1) else (j, k + 1) in
      let w = windows_step start j k n in
      elim (Bool-cases (ltb (start + last) lens)) [
        | inl g ↦ elim (Bool-cases (r.0 == last)) [
          | inl e ↦
              rw (g, e)
                (record {
                  yes = λ h. record {
                    start = start;
                    occurs = record {
                      within = ground (arith, g);
                      same = w.hit (ground (arith, e));
                    };
                  };
                  no = λ h. absurd (ground (arith, h));
                  ends = λ h. absurd (ground (arith, h));
                  at_end = λ h. ground (arith, e);
                })
          | inr e ↦
              let missed : r.0 ≢ last = λ h. ground (arith, e, h) in
              let go = windows_lem fuel (start + 1) r.0 r.1 missed (omega (arith, l)) in
              rw (g, e)
                (record {
                  yes = go.yes;
                  no = λ h o m at. elim (Bool-cases (o == start)) [
                    | inl f ↦
                        let here : o ≡ start = ground (arith, f) in
                        w.miss missed (subst (OccursAt s lens p (last + 1)) here at).same
                    | inr f ↦ go.no h o (ground (arith, f, m)) at
                  ];
                  ends = go.ends;
                  at_end = go.at_end;
                })
        ]
        | inr g ↦ rw g (record {
          yes = λ h. absurd (ground (arith, h));
          no = λ h o m at. let within = at.within in ground (arith, g, within, m);
          ends = λ h. n;
          at_end = λ h. absurd (ground (arith, h));
        })
      ]

-- For a pattern of two characters at least, `nfind` says YES exactly where `KMP` does, and NO exactly
-- where `KMP` does not.
pub nfind_agree :
    (left s : ℕ → ℕ) (lens : ℕ) (p : ℕ → ℕ) (lenp : ℕ)
    → 2 ≤ lenp
    → ((nfind s lens p lenp).0 ≡ (kmp left s lens p lenp).0)
      × ((nfind s lens p lenp).1 ≡ not (kmp left s lens p lenp).0)
unfolding nfind
nfind_agree left s lens p lenp l =
    let at : lenp - 1 + 1 ≡ lenp = omega (arith, l) in
    let a =
      windows_lem s lens p (lenp - 1) (omega (arith, l)) lens 0 0 0 (omega (arith, l))
        (omega arith) in
    let (to, from) = kmp_iff left s lens p lenp (omega (arith, l)) in
    let r = windows lens s lens p (lenp - 1) 0 0 0 in
    elim (Bool-cases r.0) [
      | inl e ↦
          let said = from (subst (Occurs s lens p) at (a.yes e)) in
          let end = a.at_end e in
          let stopped : (r.1 == lenp - 1) ≡ true = ground (arith, end) in
          (e ∙ sym said, ap not stopped ∙ ap not (sym said))
      | inr e ↦
          let end = a.ends e in
          let stopped : (r.1 == lenp - 1) ≡ false = ground (arith, end) in
          let said : (kmp left s lens p lenp).0 ≡ false =
            elim (Bool-cases (kmp left s lens p lenp).0) [
              | inl k ↦
                  let o = to k in
                  absurd (
                    a.no e o.start (omega arith)
                      (subst (λ n. OccursAt s lens p n o.start) (sym at) o.occurs))
              | inr k ↦ k
            ] in
          (e ∙ sym said, ap not stopped ∙ ap not (sym said))
    ]

-- A pattern of one character: the loop ends in its first round, with YES.
pub nfind_one : (s : ℕ → ℕ) (lens : ℕ) (p : ℕ → ℕ) → 0 < lens → (nfind s lens p 1).0 ≡ true
unfolding nfind windows compare
nfind_one s zero p l = absurd (omega (arith, l))
nfind_one s (suc n) p l =
    let some_n : ltb 0 (suc n) ≡ true = ground arith in
    elim (Bool-cases (s 0 == p 0)) [ inl e ↦ rw (e, some_n) refl | inr e ↦ rw (e, some_n) refl ]
