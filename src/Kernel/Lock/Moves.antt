-- ===== src/Kernel/Lock/Moves.antt =====
-- How a step changes who holds a lock.
use sogang_university.Shared.{
  ℕ, ◌+◌, ◌-◌, ◌%◌, ◌^◌, ◌≤◌, ◌≡◌, ◌≢◌, ◌⊎◌, refl, sym, ap, ◌∙◌, arith, inl, inr, true, false,
  Bool-cases, ◌==◌, if◌then◌else◌,
}
use mathlib.Core.Path.{subst}
use sogang_university.Kernel.Lock.{Stage, outside, acquiring, acquired, inside, releasing, at_stage}
use sogang_university.Kernel.Lock.Value.{}

-- From the end of sema_down to the beginning of sema_up.
abbrev pub Owns : Stage → Type 0
Owns outside = ⊥
Owns acquiring = ⊥
Owns acquired = Unit
Owns inside = Unit
Owns releasing = Unit

-- The value of the semaphore, the holder and the stages.
pub record IsHeld (value holder : ℕ) (stage : ℕ → Stage) : Type 0 where
  pub most : value ≤ 1
  pub free : (t : ℕ) → Owns (stage t) → value ≡ 0
  pub one : (t u : ℕ) → Owns (stage t) → Owns (stage u) → t ≡ u
  pub held : (t : ℕ) → stage t ≡ inside → holder ≡ t
  pub back : holder ≢ 0 → stage holder ≡ inside

-- What an owner among the new stages is.
owner_after :
    (c t : ℕ) (y : Stage) (stage : ℕ → Stage)
    → Owns (at_stage c y stage t)
    → ((t ≡ c) × Owns y) ⊎ ((t ≢ c) × Owns (stage t))
owner_after c t y stage o = elim (Bool-cases (t == c)) [
  | inl e ↦ inl (ground (arith, e), subst (λ b. Owns (if b then y else stage t)) e o)
  | inr e ↦ inr (ground (arith, e), subst (λ b. Owns (if b then y else stage t)) e o)
]

inside_after :
    (c t : ℕ) (y : Stage) (stage : ℕ → Stage)
    → at_stage c y stage t ≡ inside
    → ((t ≡ c) × (y ≡ inside)) ⊎ ((t ≢ c) × (stage t ≡ inside))
inside_after c t y stage o = elim (Bool-cases (t == c)) [
  | inl e ↦ inl (ground (arith, e), subst (λ b. (if b then y else stage t) ≡ inside) e o)
  | inr e ↦ inr (ground (arith, e), subst (λ b. (if b then y else stage t) ≡ inside) e o)
]

stays : (c t : ℕ) (y : Stage) (stage : ℕ → Stage) → t ≢ c → at_stage c y stage t ≡ stage t
stays c t y stage ne = let no : (t == c) ≡ false = ground (arith, ne) in rw no refl

-- The holder is another thread than one that is not inside.
still_inside :
    (value holder c : ℕ) (x y : Stage) (stage : ℕ → Stage)
    → IsHeld value holder stage
    → stage c ≡ x
    → x ≢ inside
    → holder ≢ 0
    → at_stage c y stage holder ≡ inside
still_inside value holder c x y stage k is ne h =
    let other : holder ≢ c = λ e. ne (sym is ∙ ap stage (sym e) ∙ k.back h) in
    stays c holder y stage other ∙ k.back h

-- A thread that owns nothing moves on without taking the lock.
pub calls-IsHeld :
    (value holder c : ℕ) (stage : ℕ → Stage)
    → IsHeld value holder stage
    → stage c ≡ outside
    → IsHeld value holder (at_stage c acquiring stage)
calls-IsHeld value holder c stage k is = record {
  most = k.most;
  free = λ t o. elim (owner_after c t acquiring stage o) [
    | inl (e, n) ↦ absurd n
    | inr (ne, o') ↦ k.free t o'
  ];
  one = λ t u o p. elim (owner_after c t acquiring stage o) [
    | inl (e, n) ↦ absurd n
    | inr (ne, o') ↦ elim (owner_after c u acquiring stage p) [
      | inl (e, n) ↦ absurd n
      | inr (nf, p') ↦ k.one t u o' p'
    ]
  ];
  held = λ t i. elim (inside_after c t acquiring stage i) [
    | inl (e, n) ↦ ground (arith, n)
    | inr (ne, j) ↦ k.held t j
  ];
  back = still_inside value holder c outside acquiring stage k is (λ e. ground (arith, e));
}

-- Nobody owns the lock where its semaphore is not 0.
pub takes-IsHeld :
    (value after holder c : ℕ) (x : Stage) (stage : ℕ → Stage)
    → IsHeld value holder stage
    → stage c ≡ x
    → x ≢ inside
    → value ≢ 0
    → after ≡ value - 1
    → IsHeld after holder (at_stage c acquired stage)
takes-IsHeld value after holder c x stage k is ne up e =
    let nobody = λ (t : ℕ) (o : Owns (stage t)). up (k.free t o) in
    record {
      most = let m = k.most in omega (arith, m, e);
      free = λ t o. let m = k.most in omega (arith, m, e);
      one = λ t u o p. elim (owner_after c t acquired stage o) [
        | inl (e, n) ↦ elim (owner_after c u acquired stage p) [
          | inl (f, m) ↦ e ∙ sym f
          | inr (nf, p') ↦ absurd (nobody u p')
        ]
        | inr (ne, o') ↦ absurd (nobody t o')
      ];
      held = λ t i. elim (inside_after c t acquired stage i) [
        | inl (e, n) ↦ ground (arith, n)
        | inr (ne, j) ↦ k.held t j
      ];
      back = still_inside value holder c x acquired stage k is ne;
    }

-- An owner stays the only one.
moves-one :
    (value holder c : ℕ) (y : Stage) (stage : ℕ → Stage)
    → IsHeld value holder stage
    → Owns (stage c)
    → (t : ℕ) → Owns (at_stage c y stage t)
    → t ≡ c
moves-one value holder c y stage k own t o = elim (owner_after c t y stage o) [
  | inl (e, n) ↦ e
  | inr (ne, o') ↦ k.one t c o' own
]

pub holds-IsHeld :
    (value holder c : ℕ) (stage : ℕ → Stage)
    → IsHeld value holder stage
    → stage c ≡ acquired
    → IsHeld value c (at_stage c inside stage)
holds-IsHeld value holder c stage k is =
    let own : Owns (stage c) = subst Owns (sym is) tt in
    let only = moves-one value holder c inside stage k own in
    record {
      most = k.most;
      free = λ t o. k.free c own;
      one = λ t u o p. only t o ∙ sym (only u p);
      held = λ t i. sym (only t (subst Owns (sym i) tt));
      back = λ h. let yes : (c == c) ≡ true = ground arith in rw yes refl;
    }

pub drops-IsHeld :
    (value holder c : ℕ) (stage : ℕ → Stage)
    → IsHeld value holder stage
    → stage c ≡ inside
    → IsHeld value 0 (at_stage c releasing stage)
drops-IsHeld value holder c stage k is =
    let own : Owns (stage c) = subst Owns (sym is) tt in
    let only = moves-one value holder c releasing stage k own in
    record {
      most = k.most;
      free = λ t o. k.free c own;
      one = λ t u o p. only t o ∙ sym (only u p);
      held = λ t i. elim (inside_after c t releasing stage i) [
        | inl (e, n) ↦ ground (arith, n)
        | inr (ne, j) ↦ absurd (ne (k.one t c (subst Owns (sym j) tt) own))
      ];
      back = λ h. absurd (h refl);
    }

pub raises-IsHeld :
    (value after holder c : ℕ) (stage : ℕ → Stage)
    → IsHeld value holder stage
    → stage c ≡ releasing
    → after ≡ (value + 1) % 2 ^ 32
    → IsHeld after holder (at_stage c outside stage)
raises-IsHeld value after holder c stage k is e =
    let own : Owns (stage c) = subst Owns (sym is) tt in
    let only = moves-one value holder c outside stage k own in
    let nobody : (t : ℕ) → Owns (at_stage c outside stage t) → ⊥ = λ t o.
      elim (owner_after c t outside stage o) [ inl (e, n) ↦ n | inr (ne, o') ↦ ne (only t o) ] in
    let zero_ = k.free c own in
    record {
      most = omega (arith, e, zero_);
      free = λ t o. absurd (nobody t o);
      one = λ t u o p. absurd (nobody t o);
      held = λ t i. absurd (nobody t (subst Owns (sym i) tt));
      back = still_inside value holder c releasing outside stage k is (λ e. ground (arith, e));
    }
