-- ===== src/Tetris/Field/Check.antt =====
-- What `CheckToMove` decides.
use sogang_university.Shared.{ℕ, ◌<◌, ◌≡◌, refl, sym, ◌∙◌, arith}
use sogang_university.Shared.{Bool, true, false, not, ◌&&◌, ◌||◌, ◌==◌, if◌then◌else◌}
use sogang_university.Shared.{Bool-cases, ◌↔◌, inl, inr, List, [], ◌∷◌, All}
use sogang_university.Shared.Int.{ℤ, pos, negsuc, neg_part, leb_ℤ, ltb_ℤ, add_nat}
use sogang_university.Tetris.Blocks.{width, height, positions}
use sogang_university.Tetris.Field.{Field, Place, cell, read, is_solid, check_cells, check_to_move}

-- `(y, x)` is an empty cell of the field.
abbrev pub IsFree : Field → ℤ → ℤ → Type 0
IsFree f y x =
    (a : ℕ) × (b : ℕ) × (y ≡ pos a) × (x ≡ pos b) × (a < height) × (b < width) × (cell f a b ≡ 0)

-- The solid cells of the shape lie on empty cells of the field.
abbrev pub Fits : Field → Place → List (ℕ × ℕ) → Type 0
Fits f p cells =
    All (λ (c : ℕ × ℕ). is_solid p c ≡ true → IsFree f (add_nat p.y c.0) (add_nat p.x c.1)) cells

-- No solid cell of the shape is above the field.
abbrev pub IsBelowTop : Place → List (ℕ × ℕ) → Type 0
IsBelowTop p cells = All (λ (c : ℕ × ℕ). is_solid p c ≡ true → neg_part (add_nat p.y c.0) ≡ 0) cells

module _ (outside : ℤ → ℤ → ℕ) (f : Field) where
  -- The three tests on a solid cell at `(y, x)`.
  abbrev passes : ℤ → ℤ → Bool
  passes y x =
      if leb_ℤ (pos height) y
      then false
      else if leb_ℤ (pos width) x || ltb_ℤ x (pos 0)
      then false
      else if not (read outside f y x == 0)
      then false
      else true

  passes-IsFree : (y x : ℤ) → neg_part y ≡ 0 → passes y x ≡ true → IsFree f y x
  passes-IsFree (pos a) (pos b) n h = (a, b, refl, refl, ground arith, ground arith, ground arith)
  passes-IsFree (pos a) (negsuc b) n h = absurd (ground arith)
  passes-IsFree (negsuc a) x n h = absurd (omega arith)

  IsFree-passes : (y x : ℤ) → IsFree f y x → passes y x ≡ true
  IsFree-passes (pos a) (pos b) (a', b', ey, ex, ha, hb, e) = ground arith
  IsFree-passes (pos a) (negsuc b) (a', b', ey, ex, ha, hb, e) = absurd (cc)
  IsFree-passes (negsuc a) x (a', b', ey, ex, ha, hb, e) = absurd (cc)

  check_cells-cons :
      (p : Place) (c : ℕ × ℕ) (cells : List (ℕ × ℕ))
      → check_cells outside f p (c ∷ cells)
        ≡ (not (is_solid p c) || passes (add_nat p.y c.0) (add_nat p.x c.1))
          && check_cells outside f p cells
  unfolding check_cells
  check_cells-cons p (i, j) cells = ground arith

  check_cells-Fits :
      (p : Place) (cells : List (ℕ × ℕ))
      → IsBelowTop p cells
      → check_cells outside f p cells ≡ true
      → Fits f p cells
  check_cells-Fits p [] top h = tt
  check_cells-Fits p (c ∷ cells) top h =
      let parts = sym (check_cells-cons p c cells) ∙ h in
      (
        λ solid. passes-IsFree (add_nat p.y c.0) (add_nat p.x c.1) (top.0 solid) (ground arith),
        check_cells-Fits p cells top.1 (ground arith),
      )

  Fits-check_cells :
      (p : Place) (cells : List (ℕ × ℕ)) → Fits f p cells → check_cells outside f p cells ≡ true
  unfolding check_cells
  Fits-check_cells p [] h = refl
  Fits-check_cells p (c ∷ cells) h = check_cells-cons p c cells ∙ elim (Bool-cases (is_solid p c)) [
    | inl solid ↦
        rw (solid, IsFree-passes (add_nat p.y c.0) (add_nat p.x c.1) (h.0 solid))
          (Fits-check_cells p cells h.1)
    | inr empty ↦ rw empty (Fits-check_cells p cells h.1)
  ]

-- For a placement with no solid cell above the field, `CheckToMove` answers 1 exactly if every
-- solid cell of the shape lies on an empty cell inside the field, whatever C would read outside
-- the array.
pub check_to_move_iff :
    (outside : ℤ → ℤ → ℕ) (f : Field) (p : Place)
    → IsBelowTop p positions
    → (check_to_move outside f p ≡ true) ↔ Fits f p positions
unfolding check_to_move
check_to_move_iff outside f p top =
    (check_cells-Fits outside f p positions top, Fits-check_cells outside f p positions)
