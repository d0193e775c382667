-- ===== src/Tetris/Field/Add.antt =====
-- What `AddBlockToField` writes, and how it scores.
use sogang_university.Shared.{ℕ, ◌+◌, ◌-◌, ◌<◌, ◌≡◌, refl, ◌∙◌, ap, arith}
use sogang_university.Shared.{Bool, true, false, ◌&&◌, ◌||◌, ◌==◌, if◌then◌else◌}
use sogang_university.Shared.{
  Bool-cases, ◌⊎◌, inl, inr, List, [], ◌∷◌, length, length-set, get_or, set,
}
use sogang_university.Shared.{All-set, All-get_or, get_or-set}
use sogang_university.Shared.Int.{ℤ, pos, negsuc, pos_part, add_nat}
use sogang_university.Tetris.Blocks.{width, height, positions}
use sogang_university.Tetris.Field.{Row, Field, Place, cell, write, is_solid, in_field, Added}
use sogang_university.Tetris.Field.{add_solid, add_cell, add_cells, add_block_to_field}
use sogang_university.Tetris.Field.Delete.{IsField}

pub write-IsField : (f : Field) (y x v : ℕ) → y < height → IsField f → IsField (write f y x v)
write-IsField f y x v h s = record {
  rows = length-set f y (set (get_or f y []) x v) ∙ s.rows;
  columns =
      All-set (λ (r : Row). length r ≡ width) f y (set (get_or f y []) x v)
        (length-set (get_or f y []) x v
          ∙ All-get_or (λ (r : Row). length r ≡ width) f y [] (omega (arith, s.rows)) s.columns)
        s.columns;
}

pub cell-write :
    (f : Field) (y x v a b : ℕ)
    → y < height
    → x < width
    → IsField f
    → cell (write f y x v) a b ≡ (if y == a && x == b then v else cell f a b)
cell-write f y x v a b hy hx s =
    ap (λ (r : Row). get_or r b 0) (get_or-set f y a (set row x v) [] (omega (arith, s.rows)))
    ∙ elim (Bool-cases (y == a)) [
      | inl e ↦
          let same : y ≡ a = ground arith in
          rw (e, ← same) (get_or-set row x b v 0 (omega (arith, wide)))
      | inr e ↦ rw e
    ]
  where
    row : Row
    row = get_or f y []

    wide : length row ≡ width
    wide = All-get_or (λ (r : Row). length r ≡ width) f y [] (omega (arith, s.rows)) s.columns

-- Whether the coordinate `z` is `n`.
abbrev pub at : ℤ → ℕ → Bool
at (pos m) n = m == n
at (negsuc m) n = false

-- Whether `c` is a solid cell of the shape that lies on row `a` and column `b`.
abbrev pub lies_on : Place → ℕ × ℕ → ℕ → ℕ → Bool
lies_on p c a b = is_solid p c && at (add_nat p.y c.0) a && at (add_nat p.x c.1) b

abbrev pub covers : Place → List (ℕ × ℕ) → ℕ → ℕ → Bool
covers p [] a b = false
covers p (c ∷ cells) a b = lies_on p c a b || covers p cells a b

-- A solid cell in the field, with its row and column.
in_field-parts :
    (y x : ℤ)
    → in_field y x ≡ true
    → (a : ℕ) × (b : ℕ) × (y ≡ pos a) × (x ≡ pos b) × (a < height) × (b < width)
in_field-parts (pos a) (pos b) h = (a, b, refl, refl, ground arith, ground arith)
in_field-parts (pos a) (negsuc b) h = absurd (ground arith)
in_field-parts (negsuc a) (pos b) h = absurd (ground arith)
in_field-parts (negsuc a) (negsuc b) h = absurd (ground arith)

in_field-at :
    (y x : ℤ) (a b : ℕ) → a < height → b < width → at y a && at x b ≡ true → in_field y x ≡ true
in_field-at (pos m) (pos n) a b ha hb h = ground arith
in_field-at (pos m) (negsuc n) a b ha hb h = absurd (ground arith)
in_field-at (negsuc m) x a b ha hb h = absurd (cc)

-- Whether `c` is a solid cell in the field that lies on the floor, or on a cell that holds 1.
abbrev pub rests : Field → Place → ℕ × ℕ → Bool
rests f p c =
    let y = add_nat p.y c.0 in
    let x = add_nat p.x c.1 in
    is_solid p c
    && in_field y x
    && (pos_part y == height - 1 || cell f (pos_part y + 1) (pos_part x) == 1)

abbrev pub count_rests : Field → Place → List (ℕ × ℕ) → ℕ
count_rests f p [] = 0
count_rests f p (c ∷ cells) = (if rests f p c then 1 else 0) + count_rests f p cells

module _ (outside : ℤ → ℤ → ℕ) (p : Place) (c : ℕ × ℕ) (s : Added) where
  -- The cell is no part of the shape, or lies off the field: nothing is done.
  pub record Skipped : Type 0 where
    pub same : add_cell outside p c s ≡ s
    pub apart : (a b : ℕ) → a < height → b < width → lies_on p c a b ≡ false
    pub no_rest : (f : Field) → rests f p c ≡ false

  -- The cell lies on row `a` and column `b`, and is added there.
  pub record Landed : Type 0 where
    pub a : ℕ
    pub b : ℕ
    pub row : add_nat p.y c.0 ≡ pos a
    pub low : a < height
    pub right : b < width
    pub added : add_cell outside p c s ≡ add_solid outside a b s
    covered : (a' b' : ℕ) → lies_on p c a' b' ≡ a == a' && b == b'
    pub resting : (f : Field) → rests f p c ≡ a == height - 1 || cell f (a + 1) b == 1

  skipped : is_solid p c && in_field (add_nat p.y c.0) (add_nat p.x c.1) ≡ false → Skipped
  unfolding add_cell
  skipped e = record {
    same = rw e;
    apart = λ a b ha hb. ground (arith, in_field-at (add_nat p.y c.0) (add_nat p.x c.1) a b ha hb);
    no_rest = λ f. ground arith;
  }

  landed : is_solid p c ≡ true → in_field (add_nat p.y c.0) (add_nat p.x c.1) ≡ true → Landed
  unfolding add_cell
  landed solid e =
      let (a, b, ey, ex, ha, hb) = in_field-parts (add_nat p.y c.0) (add_nat p.x c.1) e in
      record {
        a = a;
        b = b;
        row = ey;
        low = ha;
        right = hb;
        added = rw (solid, e, ey, ex);
        covered = λ a' b'. rw (solid, ey, ex);
        resting = λ f. rw (solid, e, ey, ex);
      }

pub add_cell-cases :
    (outside : ℤ → ℤ → ℕ) (p : Place) (c : ℕ × ℕ) (s : Added)
    → Skipped outside p c s ⊎ Landed outside p c s
add_cell-cases outside p c s = elim (Bool-cases (is_solid p c)) [
  | inl solid ↦ elim (Bool-cases (in_field (add_nat p.y c.0) (add_nat p.x c.1))) [
    | inl e ↦ inr (landed outside p c s solid e)
    | inr e ↦ inl (skipped outside p c s (ground arith))
  ]
  | inr e ↦ inl (skipped outside p c s (ground arith))
]

module _ (outside : ℤ → ℤ → ℕ) (p : Place) where
  -- A state of the loop on a field of the right size stays on one, whatever the cell.
  pub add_cell-IsField :
      (c : ℕ × ℕ) (s : Added) → IsField s.field → IsField (add_cell outside p c s).field
  unfolding add_solid
  add_cell-IsField c s h = elim (add_cell-cases outside p c s) [
    | inl k ↦ rw k.same h
    | inr l ↦ rw l.added (write-IsField s.field l.a l.b 1 l.low h)
  ]

  pub add_cell-cell :
      (c : ℕ × ℕ) (s : Added) (a b : ℕ)
      → IsField s.field
      → a < height
      → b < width
      → cell (add_cell outside p c s).field a b ≡ (if lies_on p c a b then 1 else cell s.field a b)
  unfolding add_solid
  add_cell-cell c s a b h ha hb = elim (add_cell-cases outside p c s) [
    | inl k ↦ rw (k.same, k.apart a b ha hb)
    | inr l ↦ rw (l.added, l.covered a b) (cell-write s.field l.a l.b 1 a b l.low l.right h)
  ]

  add_cells-cell :
      (cells : List (ℕ × ℕ)) (s : Added) (a b : ℕ)
      → IsField s.field
      → a < height
      → b < width
      → cell (add_cells outside p cells s).field a b
        ≡ (if covers p cells a b then 1 else cell s.field a b)
  unfolding add_cells
  add_cells-cell [] s a b h ha hb = refl
  add_cells-cell (c ∷ cells) s a b h ha hb =
      let s' = add_cell outside p c s in
      add_cells-cell cells s' a b (add_cell-IsField c s h) ha hb
      ∙ rw (add_cell-cell c s a b h ha hb) (ground arith)

  add_cells-IsField :
      (cells : List (ℕ × ℕ)) (s : Added)
      → IsField s.field
      → IsField (add_cells outside p cells s).field
  unfolding add_cells
  add_cells-IsField [] s h = h
  add_cells-IsField (c ∷ cells) s h =
      add_cells-IsField cells (add_cell outside p c s) (add_cell-IsField c s h)

pub add_block_to_field-IsField :
    (outside : ℤ → ℤ → ℕ) (f : Field) (p : Place)
    → IsField f
    → IsField (add_block_to_field outside f p).0
unfolding add_block_to_field
add_block_to_field-IsField outside f p h =
    add_cells-IsField outside p positions (record { field = f; touched = 0 }) h

-- `AddBlockToField` keeps the size of the field, and sets exactly the cells of the field on which a
-- solid cell of the shape lies to 1; every other cell keeps its value. That holds wherever the
-- shape stands, also partly off the field, and whatever C reads outside the array.
pub add_block_to_field-cell :
    (outside : ℤ → ℤ → ℕ) (f : Field) (p : Place) (a b : ℕ)
    → IsField f
    → a < height
    → b < width
    → IsField (add_block_to_field outside f p).0
      × (cell (add_block_to_field outside f p).0 a b
          ≡ (if covers p positions a b then 1 else cell f a b))
unfolding add_block_to_field
add_block_to_field-cell outside f p a b h ha hb =
    let s : Added = record { field = f; touched = 0 } in
    (add_cells-IsField outside p positions s h, add_cells-cell outside p positions s a b h ha hb)
