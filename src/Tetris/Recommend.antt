-- ===== src/Tetris/Recommend.antt =====
-- `modified_recommend` of 2023_1st/CSE3013/Week_10/Assignment/tetris.c: the search, three shapes
-- deep, for the placement that scores best. `recommend` is the earlier version of it.
pub mod Landing
pub mod Best
pub mod Chosen
use package.sogang_university.Shared.{
  ℕ, zero, suc, ◌+◌, ◌-◌, ◌*◌, Bool, true, false, ◌&&◌, ltb, leb, ◌==◌,
}
use package.sogang_university.Shared.{if◌then◌else◌, List, [], ◌∷◌, ◌++◌, map}
use package.sogang_university.Shared.Int.{ℤ, pos, negsuc, pos_part, leb_ℤ, ltb_ℤ, add_nat, ◌+ℤ◌}
use package.sogang_university.Tetris.Blocks.{height}
use package.sogang_university.Tetris.Field.{
  Field, Place, check_to_move, add_block_to_field, delete_line,
}

abbrev pub down : Place → Place
down p = record p { y = add_nat p.y 1 }

-- The values of `X`, from -3 to 13, and the pairs `(R, X)` in the order of the two loops.
abbrev pub xs_tried : List ℤ
xs_tried =
    negsuc 2
    ∷ negsuc 1
    ∷ negsuc 0
    ∷ pos 0
    ∷ pos 1
    ∷ pos 2
    ∷ pos 3
    ∷ pos 4
    ∷ pos 5
    ∷ pos 6
    ∷ pos 7
    ∷ pos 8
    ∷ pos 9
    ∷ pos 10
    ∷ pos 11
    ∷ pos 12
    ∷ pos 13
    ∷ []

unfoldable pub tries : List (ℕ × ℤ)
tries =
    map (λ x. (0, x)) xs_tried
    ++ (map (λ x. (1, x)) xs_tried ++ (map (λ x. (2, x)) xs_tried ++ map (λ x. (3, x)) xs_tried))

-- `recommendR`, `recommendY`, `recommendX`, and how many trees `size` counts.
pub record Advice : Type 0 where
  pub r : ℕ
  pub y : ℤ
  pub x : ℤ
  pub trees : ℕ

-- `max` and the globals.
abbrev pub Search : Type 0
Search = ℤ × Advice

module _ (outside : ℤ → ℤ → ℕ) where
  -- while (Y < HEIGHT && CheckToMove(f, shape, R, Y + 1, X) == 1) Y++, which `DrawShadow` makes too.
  -- Out of fuel the loop of the model stops where it is.
  pub land : ℕ → Field → Place → Place
  land zero f p = p
  land (suc fuel) f p =
      let next = land fuel f (down p) in
      if ltb_ℤ p.y (pos height) && check_to_move outside f (down p) then next else p

  -- The placement in which the shape lands, started at `Y = 0`.
  pub landing : Field → ℕ → ℕ × ℤ → Place
  unfolding land
  landing f shape (r, x) =
      land (height + 1) f (record { shape = shape; rotation = r; y = pos 0; x = x })

  -- The field after the shape has landed at `p`, and what the turn scores.
  pub turn : Field → Place → Field × ℕ
  turn f p =
      let (added, touched) = add_block_to_field outside f p in
      let (cleared, lines) = delete_line added in (cleared, touched + lines + pos_part p.y * 30)

  -- The body of the two loops for one pair. `child` is the recursive call, which the caller makes
  -- below the last level only; `top` is `root->level == 0`.
  pub try : (Field → Advice → ℤ × Advice) → Bool → Field → ℕ → ℕ × ℤ → Search → Search
  try child top f shape (r, x) (best, g) =
      let p = landing f shape (r, x) in
      let (f', points) = turn f p in
      let (more, g') = child f' g in
      let val = pos points +ℤ more in
      let chosen = record g' { r = r; y = p.y; x = x } in
      if check_to_move outside f (record { shape = shape; rotation = r; y = pos 0; x = x })
      then if leb_ℤ best val
        then (val, (if top && leb_ℤ g'.y p.y then chosen else g'))
        else (best, g')
      else (best, g)

  pub try_all : (Field → Advice → ℤ × Advice) → Bool → Field → ℕ → List (ℕ × ℤ) → Search → Search
  unfolding try
  try_all child top f shape [] s = s
  try_all child top f shape (t ∷ ts) s = try_all child top f shape ts (try child top f shape t s)

  -- The list is `nextBlock` from `root->level` on: at its end the level is `MAX_LEVEL`, and no call
  -- is made, which adds nothing.
  pub modified_recommend : Bool → List ℕ → Field → Advice → ℤ × Advice
  unfolding try_all
  modified_recommend top [] f g = (pos 0, g)
  modified_recommend top (shape ∷ shapes) f g =
      try_all (modified_recommend false shapes) top f shape tries
        (negsuc 0, record g { trees = g.trees + 1 })
