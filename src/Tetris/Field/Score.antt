-- ===== src/Tetris/Field/Score.antt =====
-- The score of `AddBlockToField` in terms of the field before the call.
use sogang_university.Shared.{ℕ, ◌+◌, ◌-◌, ◌*◌, ◌≤◌, ◌<◌, ◌≡◌, refl, ◌∙◌, ap, arith}
use sogang_university.Shared.{true, ◌||◌, ◌==◌, if◌then◌else◌, Bool-cases}
use sogang_university.Shared.{inl, inr, List, [], ◌∷◌}
use sogang_university.Shared.Int.{ℤ, pos, negsuc, pos_part, neg_part, add_nat}
use sogang_university.Tetris.Blocks.{width, height, positions}
use sogang_university.Tetris.Field.{Field, Place, cell, Added, add_solid, add_cell, add_cells}
use sogang_university.Tetris.Field.{add_block_to_field}
use sogang_university.Tetris.Field.Delete.{IsField}
use sogang_university.Tetris.Field.Add.{rests, count_rests, cell-write, add_cell-cases}
use sogang_university.Tetris.Field.Add.{add_cell-cell, add_cell-IsField, lies_on, at}

-- The cells come row by row, from row `k` on.
abbrev IsOrdered : ℕ → List (ℕ × ℕ) → Type 0
IsOrdered k [] = Unit
IsOrdered k ((i, j) ∷ cells) = (k ≤ i) × IsOrdered i cells

-- Below row `z` the field is still as it was.
abbrev Agrees : Field → ℤ → Field → Type 0
Agrees f z g =
    (a b : ℕ) → pos_part z < a + neg_part z → a < height → b < width → cell g a b ≡ cell f a b

add_nat_mono :
    (z : ℤ) (k i : ℕ)
    → k ≤ i
    → pos_part (add_nat z k) + neg_part (add_nat z i)
      ≤ pos_part (add_nat z i) + neg_part (add_nat z k)
add_nat_mono (pos n) k i h = omega arith
add_nat_mono (negsuc n) k i h = ground arith

lies_on-row : (p : Place) (c : ℕ × ℕ) (a b : ℕ) → lies_on p c a b ≡ true → add_nat p.y c.0 ≡ pos a
lies_on-row p c a b h = go (add_nat p.y c.0) (ground arith)
  where
    go : (z : ℤ) → at z a ≡ true → z ≡ pos a
    go (pos m) e = ground arith
    go (negsuc m) e = absurd (cc)

module _ (outside : ℤ → ℤ → ℕ) (f : Field) (p : Place) where
  Agrees-add_cell :
      (c : ℕ × ℕ) (s : Added) (k : ℕ)
      → k ≤ c.0
      → IsField s.field
      → Agrees f (add_nat p.y k) s.field
      → Agrees f (add_nat p.y c.0) (add_cell outside p c s).field
  Agrees-add_cell c s k h i g a b below ha hb =
      let mono = add_nat_mono p.y k c.0 h in
      add_cell-cell outside p c s a b i ha hb ∙ elim (Bool-cases (lies_on p c a b)) [
        | inl on ↦ absurd (
            omega
              (arith, ap pos_part (lies_on-row p c a b on), ap neg_part (lies_on-row p c a b on)))
        | inr off ↦ rw off (g a b (omega arith) ha hb)
      ]

  add_solid-touched :
      (s : Added) (a b : ℕ)
      → IsField s.field
      → a < height
      → b < width
      → (a + 1 < height → cell s.field (a + 1) b ≡ cell f (a + 1) b)
      → (add_solid outside a b s).touched
        ≡ (if a == height - 1 || cell f (a + 1) b == 1 then 1 else 0) + s.touched
  unfolding add_solid
  add_solid-touched s a b i ha hb g = ground (arith, g, cell-write s.field a b 1 (a + 1) b ha hb i)

  add_cell-touched :
      (c : ℕ × ℕ) (s : Added) (k : ℕ)
      → k ≤ c.0
      → IsField s.field
      → Agrees f (add_nat p.y k) s.field
      → (add_cell outside p c s).touched ≡ (if rests f p c then 1 else 0) + s.touched
  add_cell-touched c s k h i g = elim (add_cell-cases outside p c s) [
    | inl e ↦ rw (e.same, e.no_rest f) (omega arith)
    | inr l ↦
        let mono = add_nat_mono p.y k c.0 h in
        rw (l.added, l.resting f)
          (add_solid-touched s l.a l.b i l.low l.right (λ inside.
            g (l.a + 1) l.b (omega (arith, mono, ap pos_part l.row, ap neg_part l.row)) inside
              l.right))
  ]

  add_cells-touched :
      (cells : List (ℕ × ℕ)) (s : Added) (k : ℕ)
      → IsOrdered k cells
      → IsField s.field
      → Agrees f (add_nat p.y k) s.field
      → (add_cells outside p cells s).touched ≡ count_rests f p cells + s.touched
  unfolding add_cells
  add_cells-touched [] s k o i g = omega arith
  add_cells-touched ((a, b) ∷ cells) s k o i g =
      let s' = add_cell outside p (a, b) s in
      omega (
        arith,
        add_cell-touched (a, b) s k o.0 i g,
        add_cells-touched cells s' a o.1 (add_cell-IsField outside p (a, b) s i)
            (Agrees-add_cell (a, b) s k o.0 i g),
      )

-- `AddBlockToField` returns ten points for each solid cell of the shape that lies in the field and,
-- in the field as it was before the call, on the floor or on a cell that holds 1.
pub add_block_to_field-score :
    (outside : ℤ → ℤ → ℕ) (f : Field) (p : Place)
    → IsField f
    → (add_block_to_field outside f p).1 ≡ count_rests f p positions * 10
unfolding add_block_to_field
add_block_to_field-score outside f p h = omega (
  arith,
  add_cells-touched outside f p positions (record { field = f; touched = 0 }) 0 (omega arith) h
      (λ a b below ha hb. refl),
)
