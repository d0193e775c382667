-- ===== src/Tetris/Field.antt =====
-- `CheckToMove`, `AddBlockToField` and `DeleteLine` of
-- 2023_1st/CSE3013/Week_10/Assignment/tetris.c on a field `char f[HEIGHT][WIDTH]`.
-- Coordinates are C's signed ones. `outside y x` is what C finds where the program reads past the
-- array: every definition takes it as it comes, and the theorems hold whatever it is.
pub mod Add
pub mod Check
pub mod Delete
pub mod Score
use package.sogang_university.Shared.{
  ℕ, zero, suc, ◌+◌, ◌-◌, ◌*◌, Bool, true, false, not, ◌&&◌, ◌||◌,
}
use package.sogang_university.Shared.{ltb, ◌==◌, if◌then◌else◌, List, [], ◌∷◌, get_or, set}
use package.sogang_university.Shared.{replicate}
use package.sogang_university.Shared.Int.{ℤ, pos, negsuc, pos_part, leb_ℤ, ltb_ℤ, add_nat}
use package.sogang_university.Tetris.Blocks.{width, height, block_cell, positions}

abbrev pub Row : Type 0
Row = List ℕ

abbrev pub Field : Type 0
Field = List Row

-- The cell of row `y` and column `x`, inside the array.
abbrev pub cell : Field → ℕ → ℕ → ℕ
cell f y x = get_or (get_or f y []) x 0

-- `f[y][x]` as a value.
abbrev pub read : (ℤ → ℤ → ℕ) → Field → ℤ → ℤ → ℕ
read outside f (pos y) (pos x) =
    if ltb y height && ltb x width then cell f y x else outside (pos y) (pos x)
read outside f (pos y) (negsuc x) = outside (pos y) (negsuc x)
read outside f (negsuc y) x = outside (negsuc y) x

-- `f[y][x] = v`, inside the array.
abbrev pub write : Field → ℕ → ℕ → ℕ → Field
write f y x v = set f y (set (get_or f y []) x v)

-- Where a shape stands: `currentBlock`, `blockRotate`, `blockY`, `blockX`.
pub record Place : Type 0 where
  pub shape : ℕ
  pub rotation : ℕ
  pub y : ℤ
  pub x : ℤ

-- Whether cell `(i, j)` of the shape is part of it.
abbrev pub is_solid : Place → ℕ × ℕ → Bool
is_solid p (i, j) = block_cell p.shape p.rotation i j == 1

-- The loop state of `AddBlockToField`.
abbrev pub Added : Type 0
Added = record { field : Field; touched : ℕ }

abbrev pub in_field : ℤ → ℤ → Bool
in_field y x = leb_ℤ (pos 0) x && ltb_ℤ x (pos width) && leb_ℤ (pos 0) y && ltb_ℤ y (pos height)

module _ (outside : ℤ → ℤ → ℕ) where
  -- The two loops of `CheckToMove` over the cells still to visit; a `return 0` is `false`.
  unfoldable pub check_cells : Field → Place → List (ℕ × ℕ) → Bool
  check_cells f p [] = true
  check_cells f p ((i, j) ∷ cells) =
      let rest = check_cells f p cells in
      if is_solid p (i, j)
      then if leb_ℤ (pos height) (add_nat p.y i)
        then false
        else if leb_ℤ (pos width) (add_nat p.x j) || ltb_ℤ (add_nat p.x j) (pos 0)
        then false
        else if not (read outside f (add_nat p.y i) (add_nat p.x j) == 0)
        then false
        else rest
      else rest

  unfoldable pub check_to_move : Field → Place → Bool
  unfolding check_cells
  check_to_move f p = check_cells f p positions

  -- What is done for a solid cell that lies at `(y, x)` of the field.
  pub add_solid : ℕ → ℕ → Added → Added
  add_solid y x s =
      let f = write s.field y x 1 in
      let rests = read outside f (pos (y + 1)) (pos x) == 1 || y == height - 1 in
      record { field = f; touched = if rests then s.touched + 1 else s.touched }

  -- The body of the inner loop at cell `(i, j)`. The row below is read before the test for the
  -- last row, so for the last row it is read outside the array.
  pub add_cell : Place → ℕ × ℕ → Added → Added
  unfolding add_solid
  add_cell p (i, j) s =
      if is_solid p (i, j) && in_field (add_nat p.y i) (add_nat p.x j)
      then add_solid (pos_part (add_nat p.y i)) (pos_part (add_nat p.x j)) s
      else s

  pub add_cells : Place → List (ℕ × ℕ) → Added → Added
  unfolding add_cell
  add_cells p [] s = s
  add_cells p (c ∷ cells) s = add_cells p cells (add_cell p c s)

  -- The field after `AddBlockToField`, and the score that it returns.
  unfoldable pub add_block_to_field : Field → Place → Field × ℕ
  unfolding add_cells
  add_block_to_field f p =
      let s = add_cells p positions (record { field = f; touched = 0 }) in (s.field, s.touched * 10)

-- The scan of one row for a 0: `flag` after the loop over the columns.
pub row_flag : Row → ℕ → ℕ → ℕ → ℕ
row_flag r zero j flag = flag
row_flag r (suc left) j flag = row_flag r left (j + 1) (if get_or r j 0 == 0 then 0 else flag)

abbrev pub zeros : Row
zeros = replicate width 0

-- for (k = n - 1; k >= 0; k--) f[k + 1] = f[k]; the inner loop copies the `WIDTH` cells of a row.
pub shift_down : ℕ → Field → Field
shift_down zero f = f
shift_down (suc k) f = shift_down k (set f (suc k) (get_or f k []))

-- The loop of `DeleteLine` from row `i` with `temp` full rows found. A full row is taken out and
-- row `i` is looked at again (`i--`, then `i++`). The answer is the field and `temp`. Out of
-- fuel the loop of the model stops where it is; `delete_line` gives it enough to end by its test.
pub delete_loop : ℕ → ℕ → Field → ℕ → Field × ℕ
unfolding row_flag shift_down
delete_loop zero i f temp = (f, temp)
delete_loop (suc fuel) i f temp =
    let again = delete_loop fuel i (set (shift_down i f) 0 zeros) (temp + 1) in
    let next = delete_loop fuel (i + 1) f temp in
    if ltb i height
    then if row_flag (get_or f i []) width 0 1 == 1 then again else next
    else (f, temp)

-- `DeleteLine`: the field that it leaves, and the score that it returns.
unfoldable pub delete_line : Field → Field × ℕ
unfolding delete_loop
delete_line f = let (f', temp) = delete_loop (2 * height + 1) 0 f 0 in (f', temp * temp * 100)
