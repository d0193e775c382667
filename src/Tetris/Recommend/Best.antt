-- ===== src/Tetris/Recommend/Best.antt =====
-- What `modified_recommend` returns: the most that a placement and the best that follows it can score.
use sogang_university.Shared.{ℕ, ◌+◌, ◌≡◌, refl, sym, ◌∙◌, ◌⊎◌, inl, inr, arith}
use sogang_university.Shared.{
  Bool, true, false, ◌&&◌, Bool-cases, if◌then◌else◌, List, [], ◌∷◌, All, Any,
}
use sogang_university.Shared.Int.{
  ℤ, pos, negsuc, leb_ℤ, ◌+ℤ◌, ◌≤ℤ◌, ≤ℤ_refl, ≤ℤ_trans, leb_ℤ→≤ℤ, leb_ℤ→≥ℤ,
}
use sogang_university.Tetris.Field.{Field, Place, check_to_move}
use sogang_university.Tetris.Recommend.{
  tries, Advice, Search, landing, turn, try, try_all, modified_recommend,
}

module _ (outside : ℤ → ℤ → ℕ) where
  abbrev pub start : ℕ → ℕ × ℤ → Place
  start shape (r, x) = record { shape = shape; rotation = r; y = pos 0; x = x }

  -- The shape can be put in row 0.
  abbrev pub playable : Field → ℕ → ℕ × ℤ → Bool
  playable f shape t = check_to_move outside f (start shape t)

  abbrev pub Child : Type 0
  Child = Field → Advice → ℤ × Advice

  -- What a pair adds up to.
  abbrev pub val_of : (Field → ℤ) → Field → ℕ → ℕ × ℤ → ℤ
  val_of more f shape t =
      let result = turn outside f (landing outside f shape t) in pos result.1 +ℤ more result.0

  try-best :
      (child : Child) (more : Field → ℤ) (top : Bool) (f : Field) (shape : ℕ) (t : ℕ × ℤ)
      (s : Search)
      → ((f' : Field) (g : Advice) → (child f' g).0 ≡ more f')
      → (try outside child top f shape t s).0 ≡ (
          if playable f shape t && leb_ℤ s.0 (val_of more f shape t)
          then val_of more f shape t
          else s.0)
  unfolding try
  try-best child more top f shape (r, x) (best, g) h =
      let result = turn outside f (landing outside f shape (r, x)) in ground (arith, h result.0 g)

  -- The value of the loop over `ts` started at `best`.
  pub record IsBest (more : Field → ℤ) (f : Field) (shape : ℕ) (ts : List (ℕ × ℤ)) (best r : ℤ)
      : Type 0 where
    pub grows : best ≤ℤ r
    pub bound : All (λ (t : ℕ × ℤ). playable f shape t ≡ true → val_of more f shape t ≤ℤ r) ts
    pub found :
        (r ≡ best)
        ⊎ Any (λ (t : ℕ × ℤ). (playable f shape t ≡ true) × (val_of more f shape t ≡ r)) ts

  IsBest-cons :
      (more : Field → ℤ) (f : Field) (shape : ℕ) (t : ℕ × ℤ) (ts : List (ℕ × ℤ)) (best best' r : ℤ)
      → best' ≡ (
          if playable f shape t && leb_ℤ best (val_of more f shape t)
          then val_of more f shape t
          else best)
      → IsBest more f shape ts best' r
      → IsBest more f shape (t ∷ ts) best r
  IsBest-cons more f shape t ts best best' r e h =
      elim (Bool-cases (playable f shape t && leb_ℤ best (val_of more f shape t))) [
        | inl better ↦
            let new : best' ≡ val_of more f shape t = rw better at e in
            record {
              grows =
                  ≤ℤ_trans best best' r
                    (rw new (leb_ℤ→≤ℤ best (val_of more f shape t) (ground arith))) h.grows;
              bound = (λ _. rw (← new) h.grows, h.bound);
              found = elim h.found [
                | inl same ↦ inr (inl (ground arith, sym (same ∙ new)))
                | inr later ↦ inr (inr later)
              ];
            }
        | inr worse ↦
            let old : best' ≡ best = rw worse at e in
            record {
              grows = rw (← old) h.grows;
              bound = (
                λ fits.
                    ≤ℤ_trans (val_of more f shape t) best' r
                      (rw old (leb_ℤ→≥ℤ best (val_of more f shape t) (ground arith))) h.grows,
                h.bound,
              );
              found = elim h.found [ inl same ↦ inl (same ∙ old) | inr later ↦ inr (inr later) ];
            }
      ]

  pub try_all-IsBest :
      (child : Child) (more : Field → ℤ) (top : Bool) (f : Field) (shape : ℕ)
      → ((f' : Field) (g : Advice) → (child f' g).0 ≡ more f')
      → (ts : List (ℕ × ℤ)) (s : Search)
      → IsBest more f shape ts s.0 (try_all outside child top f shape ts s).0
  unfolding try_all
  try_all-IsBest child more top f shape h [] s = record {
    grows = ≤ℤ_refl s.0;
    bound = tt;
    found = inl refl;
  }
  try_all-IsBest child more top f shape h (t ∷ ts) s =
      IsBest-cons more f shape t ts s.0 (try outside child top f shape t s).0 _
        (try-best child more top f shape t s h)
        (try_all-IsBest child more top f shape h ts (try outside child top f shape t s))

  -- The value depends on neither the advice so far nor the level.
  try_all-same :
      (child child' : Child) (more : Field → ℤ) (top top' : Bool) (f : Field) (shape : ℕ)
      → ((f' : Field) (g : Advice) → (child f' g).0 ≡ more f')
      → ((f' : Field) (g : Advice) → (child' f' g).0 ≡ more f')
      → (ts : List (ℕ × ℤ)) (s s' : Search) → s.0 ≡ s'.0
      → (try_all outside child top f shape ts s).0 ≡ (try_all outside child' top' f shape ts s').0
  unfolding try_all
  try_all-same child child' more top top' f shape h h' [] s s' e = e
  try_all-same child child' more top top' f shape h h' (t ∷ ts) s s' e =
      try_all-same child child' more top top' f shape h h' ts (try outside child top f shape t s)
        (try outside child' top' f shape t s')
        (rw (try-best child more top f shape t s h, try-best child' more top' f shape t s' h', e))

  abbrev no_advice : Advice
  no_advice = record { r = 0; y = pos 0; x = pos 0; trees = 0 }

  -- What the search returns for the shapes to come.
  abbrev pub worth : List ℕ → Field → ℤ
  worth shapes f = (modified_recommend outside false shapes f no_advice).0

  pub modified_recommend-worth :
      (top : Bool) (shapes : List ℕ) (f : Field) (g : Advice)
      → (modified_recommend outside top shapes f g).0 ≡ worth shapes f
  unfolding modified_recommend
  modified_recommend-worth top [] f g = refl
  modified_recommend-worth top (shape ∷ shapes) f g =
      try_all-same (modified_recommend outside false shapes)
        (modified_recommend outside false shapes) (worth shapes) top false f shape
        (modified_recommend-worth false shapes) (modified_recommend-worth false shapes) tries
        (negsuc 0, record g { trees = g.trees + 1 })
        (negsuc 0, record no_advice { trees = no_advice.trees + 1 }) refl

-- `modified_recommend` returns the most that a placement of the shape can bring: its turn's points
-- and what the search returns for the shapes after it. No placement that can start in row 0 brings
-- more, one brings as much, and -1 is returned if none can start there. It does not depend on the
-- level or on the advice so far.
pub modified_recommend-max :
    (outside : ℤ → ℤ → ℕ) (top : Bool) (shape : ℕ) (shapes : List ℕ) (f : Field) (g : Advice)
    → let best = (modified_recommend outside top (shape ∷ shapes) f g).0 in
      let val = val_of outside (λ f'. (modified_recommend outside false shapes f' g).0) f shape in
      All (λ (t : ℕ × ℤ). playable outside f shape t ≡ true → val t ≤ℤ best) tries
      × ((best ≡ negsuc 0)
          ⊎ Any (λ (t : ℕ × ℤ). (playable outside f shape t ≡ true) × (val t ≡ best)) tries)
unfolding modified_recommend
modified_recommend-max outside top shape shapes f g = (best.bound, best.found)
  where
    more : Field → ℤ
    more f' = (modified_recommend outside false shapes f' g).0

    same : (f' : Field) (g' : Advice) → (modified_recommend outside false shapes f' g').0 ≡ more f'
    same f' g' =
        modified_recommend-worth outside false shapes f' g'
        ∙ sym (modified_recommend-worth outside false shapes f' g)

    best :
        IsBest outside more f shape tries
          (negsuc 0)
          (modified_recommend outside top (shape ∷ shapes) f g).0
    best =
        try_all-IsBest outside (modified_recommend outside false shapes) more top f shape same tries
          (negsuc 0, record g { trees = g.trees + 1 })
