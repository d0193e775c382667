-- ===== src/Strings/Scan.antt =====
-- `KMP` says YES exactly if the pattern occurs in the string, in few rounds.
use sogang_university.Shared.{
  ℕ, zero, suc, ◌+◌, ◌-◌, ◌*◌, ◌≤◌, ◌<◌, ◌≡◌, refl, arith, inl, inr, Bool-cases, ◌==◌, true, false,
}
use sogang_university.Strings.{State, goes_on, next, scan, fill, write, kmp}
use sogang_university.Strings.Failure.{IsFailure, failure_lem}
use sogang_university.Strings.Rounds.{Occurs, Partial, measure, same_round, first_round, fail_round}

module _ (s : ℕ → ℕ) (lens : ℕ) (p : ℕ → ℕ) (lenp : ℕ) (f : ℕ → ℕ)
    (right : IsFailure p lenp f) where
  -- What a round does.
  record Advances (x y : State) : Type 0 where
    partly : Partial s lens p lenp y
    less : measure lens y < measure lens x
    counted : y.k ≡ x.k + 1

  next_lem :
      (x : State) → Partial s lens p lenp x → goes_on lens lenp x ≡ true → Advances x (next s p f x)
  next_lem x w g =
      let l : x.i < lens = ground (arith, g) in
      let m : x.j < lenp = ground (arith, g) in
      elim (Bool-cases (s x.i == p x.j)) [
        | inl e ↦ rw e (record {
          partly = same_round s lens p lenp f right x w l m (ground (arith, e));
          less = omega (arith, l);
          counted = refl;
        })
        | inr e ↦ elim (Bool-cases (x.j == 0)) [
          | inl z ↦
              rw (e, z)
                (record {
                  partly =
                      first_round s lens p lenp f right x w l m (λ h. ground (arith, e, h))
                        (ground (arith, z));
                  less = omega (arith, l);
                  counted = refl;
                })
          | inr z ↦
              let (w', less) =
                fail_round s lens p lenp f right x w l m (λ h. ground (arith, e, h))
                  (ground (arith, z)) in
              rw (e, z) (record { partly = w'; less = omega (arith, less); counted = refl })
        ]
      ]

  -- The loop ends, and what it has counted.
  record Ended (x y : State) : Type 0 where
    partly : Partial s lens p lenp y
    over : goes_on lens lenp y ≡ false
    rounds : y.k ≤ x.k + measure lens x

  stopped : (x : State) → Partial s lens p lenp x → measure lens x ≤ 0 → goes_on lens lenp x ≡ false
  stopped x w l = let i = w.in_string in ground (arith, l, i)

  scan_lem :
      (fuel : ℕ) (x : State)
      → Partial s lens p lenp x
      → measure lens x ≤ fuel
      → Ended x (scan fuel s lens p lenp f x)
  unfolding scan
  scan_lem zero x w l = record { partly = w; over = stopped x w l; rounds = omega arith }
  scan_lem (suc fuel) x w l = elim (Bool-cases (goes_on lens lenp x)) [
    | inl g ↦
        let n = next_lem x w g in
        let e =
          scan_lem fuel (next s p f x) n.partly (let less = n.less in omega (arith, less, l)) in
        let less = n.less in
        let counted = n.counted in
        let rounds = e.rounds in
        rw g (record {
          partly = e.partly;
          over = e.over;
          rounds = omega (arith, rounds, counted, less);
        })
    | inr g ↦ rw g (record { partly = w; over = g; rounds = omega arith })
  ]

  -- At the end the pattern has been found, or is nowhere.
  ended_iff :
      (y : State)
      → Partial s lens p lenp y
      → goes_on lens lenp y ≡ false
      → ((y.j == lenp) ≡ true → Occurs s lens p lenp)
        × (Occurs s lens p lenp → (y.j == lenp) ≡ true)
  ended_iff y w g = (
    λ e.
        let all : y.j ≡ lenp = ground (arith, e) in
        record {
          start = y.i - y.j;
          occurs = record {
            within = let i = w.in_string in let b = w.behind in omega (arith, i, b, all);
            same = λ t u. w.same t (omega (arith, u, all));
          };
        },
    λ o. elim (Bool-cases (y.j == lenp)) [
      | inl e ↦ e
      | inr e ↦
          let in_p = w.in_pattern in
          let in_s = w.in_string in
          let within = o.occurs.within in
          absurd (w.none_before o.start (ground (arith, e, g, in_p, in_s, within)) o.occurs)
    ],
  )

abbrev begin : ℕ → State
begin lenp = record { i = 0; j = 0; k = lenp - 1 }

begin-Partial : (s : ℕ → ℕ) (lens : ℕ) (p : ℕ → ℕ) (lenp : ℕ) → Partial s lens p lenp (begin lenp)
begin-Partial s lens p lenp = record {
  behind = omega arith;
  in_string = omega arith;
  in_pattern = omega arith;
  same = λ t u. absurd (omega (arith, u));
  none_before = λ o u k. omega (arith, u);
}

kmp-Ended :
    (left s : ℕ → ℕ) (lens : ℕ) (p : ℕ → ℕ) (lenp : ℕ) (l : 0 < lenp)
    → Ended s lens p lenp
        (fill (lenp - 1) p 1 (write 0 0 left))
        (failure_lem p left lenp l)
        (begin lenp)
        (scan (2 * lens) s lens p lenp (fill (lenp - 1) p 1 (write 0 0 left)) (begin lenp))
kmp-Ended left s lens p lenp l =
    scan_lem s lens p lenp (fill (lenp - 1) p 1 (write 0 0 left)) (failure_lem p left lenp l)
      (2 * lens) (begin lenp) (begin-Partial s lens p lenp) (omega arith)

-- For a pattern of one character at least, `KMP` says YES exactly if the pattern stands somewhere in
-- the string, whatever was in `failure` before.
pub kmp_iff :
    (left s : ℕ → ℕ) (lens : ℕ) (p : ℕ → ℕ) (lenp : ℕ)
    → 0 < lenp
    → ((kmp left s lens p lenp).0 ≡ true → Occurs s lens p lenp)
      × (Occurs s lens p lenp → (kmp left s lens p lenp).0 ≡ true)
unfolding kmp
kmp_iff left s lens p lenp l =
    let e = kmp-Ended left s lens p lenp l in
    ended_iff s lens p lenp (fill (lenp - 1) p 1 (write 0 0 left)) (failure_lem p left lenp l) _
      e.partly e.over

-- What the search of `KMP` leaves of `i`, `j` and `k` if it is given that many rounds.
abbrev pub searched : ℕ → (ℕ → ℕ) → (ℕ → ℕ) → ℕ → (ℕ → ℕ) → ℕ → State
searched fuel left s lens p lenp =
    scan fuel s lens p lenp (fill (lenp - 1) p 1 (write 0 0 left)) (begin lenp)

-- The search of `KMP` ends by its own test, after at most two rounds a character of the string: with
-- that many rounds or more its condition is false. The number that `KMP` prints is the one it has then,
-- with the rounds that filled the table, and is less than the pattern's length and twice the string's.
pub kmp_rounds :
    (left s : ℕ → ℕ) (lens : ℕ) (p : ℕ → ℕ) (lenp : ℕ)
    → 0 < lenp
    → ((fuel : ℕ) → 2 * lens ≤ fuel → goes_on lens lenp (searched fuel left s lens p lenp) ≡ false)
      × ((kmp left s lens p lenp).1 ≡ (searched (2 * lens) left s lens p lenp).k)
      × ((kmp left s lens p lenp).1 < lenp + 2 * lens)
unfolding kmp
kmp_rounds left s lens p lenp l =
    let e = kmp-Ended left s lens p lenp l in
    let rounds = e.rounds in
    let table = fill (lenp - 1) p 1 (write 0 0 left) in
    (
      λ fuel enough.
          let ended =
            scan_lem s lens p lenp table (failure_lem p left lenp l) fuel (begin lenp)
              (begin-Partial s lens p lenp) (omega (arith, enough)) in
          ended.over,
      refl,
      omega (arith, rounds, l),
    )
