-- ===== src/Tetris/Blocks.antt =====
-- The shapes of 2023_1st/CSE3013/Week_10/Assignment/tetris.h: `block[shape][rotation][row][column]`.
use sogang_university.Shared.{ℕ, List, [], ◌∷◌, get_or}

abbrev pub width : ℕ
width = 10

abbrev pub height : ℕ
height = 22

abbrev pub num_of_shape : ℕ
num_of_shape = 7

abbrev pub num_of_rotate : ℕ
num_of_rotate = 4

abbrev shape_0 : List (List (List ℕ))
shape_0 =
    ((0 ∷ 0 ∷ 0 ∷ 0 ∷ []) ∷ (1 ∷ 1 ∷ 1 ∷ 1 ∷ []) ∷ (0 ∷ 0 ∷ 0 ∷ 0 ∷ []) ∷ (0 ∷ 0 ∷ 0 ∷ 0 ∷ []) ∷ [])
    ∷ ((0 ∷ 1 ∷ 0 ∷ 0 ∷ [])
        ∷ (0 ∷ 1 ∷ 0 ∷ 0 ∷ [])
        ∷ (0 ∷ 1 ∷ 0 ∷ 0 ∷ [])
        ∷ (0 ∷ 1 ∷ 0 ∷ 0 ∷ [])
        ∷ [])
    ∷ ((0 ∷ 0 ∷ 0 ∷ 0 ∷ [])
        ∷ (1 ∷ 1 ∷ 1 ∷ 1 ∷ [])
        ∷ (0 ∷ 0 ∷ 0 ∷ 0 ∷ [])
        ∷ (0 ∷ 0 ∷ 0 ∷ 0 ∷ [])
        ∷ [])
    ∷ ((0 ∷ 1 ∷ 0 ∷ 0 ∷ [])
        ∷ (0 ∷ 1 ∷ 0 ∷ 0 ∷ [])
        ∷ (0 ∷ 1 ∷ 0 ∷ 0 ∷ [])
        ∷ (0 ∷ 1 ∷ 0 ∷ 0 ∷ [])
        ∷ [])
    ∷ []

abbrev shape_1 : List (List (List ℕ))
shape_1 =
    ((0 ∷ 0 ∷ 0 ∷ 0 ∷ []) ∷ (0 ∷ 0 ∷ 0 ∷ 0 ∷ []) ∷ (0 ∷ 1 ∷ 1 ∷ 1 ∷ []) ∷ (0 ∷ 0 ∷ 0 ∷ 1 ∷ []) ∷ [])
    ∷ ((0 ∷ 0 ∷ 0 ∷ 0 ∷ [])
        ∷ (0 ∷ 0 ∷ 1 ∷ 1 ∷ [])
        ∷ (0 ∷ 0 ∷ 1 ∷ 0 ∷ [])
        ∷ (0 ∷ 0 ∷ 1 ∷ 0 ∷ [])
        ∷ [])
    ∷ ((0 ∷ 0 ∷ 0 ∷ 0 ∷ [])
        ∷ (0 ∷ 1 ∷ 0 ∷ 0 ∷ [])
        ∷ (0 ∷ 1 ∷ 1 ∷ 1 ∷ [])
        ∷ (0 ∷ 0 ∷ 0 ∷ 0 ∷ [])
        ∷ [])
    ∷ ((0 ∷ 0 ∷ 0 ∷ 0 ∷ [])
        ∷ (0 ∷ 0 ∷ 1 ∷ 0 ∷ [])
        ∷ (0 ∷ 0 ∷ 1 ∷ 0 ∷ [])
        ∷ (0 ∷ 1 ∷ 1 ∷ 0 ∷ [])
        ∷ [])
    ∷ []

abbrev shape_2 : List (List (List ℕ))
shape_2 =
    ((0 ∷ 0 ∷ 0 ∷ 0 ∷ []) ∷ (0 ∷ 0 ∷ 0 ∷ 0 ∷ []) ∷ (0 ∷ 1 ∷ 1 ∷ 1 ∷ []) ∷ (0 ∷ 1 ∷ 0 ∷ 0 ∷ []) ∷ [])
    ∷ ((0 ∷ 0 ∷ 0 ∷ 0 ∷ [])
        ∷ (0 ∷ 0 ∷ 1 ∷ 0 ∷ [])
        ∷ (0 ∷ 0 ∷ 1 ∷ 0 ∷ [])
        ∷ (0 ∷ 0 ∷ 1 ∷ 1 ∷ [])
        ∷ [])
    ∷ ((0 ∷ 0 ∷ 0 ∷ 0 ∷ [])
        ∷ (0 ∷ 0 ∷ 0 ∷ 1 ∷ [])
        ∷ (0 ∷ 1 ∷ 1 ∷ 1 ∷ [])
        ∷ (0 ∷ 0 ∷ 0 ∷ 0 ∷ [])
        ∷ [])
    ∷ ((0 ∷ 0 ∷ 0 ∷ 0 ∷ [])
        ∷ (0 ∷ 1 ∷ 1 ∷ 0 ∷ [])
        ∷ (0 ∷ 0 ∷ 1 ∷ 0 ∷ [])
        ∷ (0 ∷ 0 ∷ 1 ∷ 0 ∷ [])
        ∷ [])
    ∷ []

abbrev shape_3 : List (List (List ℕ))
shape_3 =
    ((0 ∷ 0 ∷ 0 ∷ 0 ∷ []) ∷ (0 ∷ 1 ∷ 0 ∷ 0 ∷ []) ∷ (1 ∷ 1 ∷ 1 ∷ 0 ∷ []) ∷ (0 ∷ 0 ∷ 0 ∷ 0 ∷ []) ∷ [])
    ∷ ((0 ∷ 0 ∷ 0 ∷ 0 ∷ [])
        ∷ (0 ∷ 1 ∷ 0 ∷ 0 ∷ [])
        ∷ (1 ∷ 1 ∷ 0 ∷ 0 ∷ [])
        ∷ (0 ∷ 1 ∷ 0 ∷ 0 ∷ [])
        ∷ [])
    ∷ ((0 ∷ 0 ∷ 0 ∷ 0 ∷ [])
        ∷ (0 ∷ 0 ∷ 0 ∷ 0 ∷ [])
        ∷ (1 ∷ 1 ∷ 1 ∷ 0 ∷ [])
        ∷ (0 ∷ 1 ∷ 0 ∷ 0 ∷ [])
        ∷ [])
    ∷ ((0 ∷ 0 ∷ 0 ∷ 0 ∷ [])
        ∷ (0 ∷ 1 ∷ 0 ∷ 0 ∷ [])
        ∷ (0 ∷ 1 ∷ 1 ∷ 0 ∷ [])
        ∷ (0 ∷ 1 ∷ 0 ∷ 0 ∷ [])
        ∷ [])
    ∷ []

abbrev shape_4 : List (List (List ℕ))
shape_4 =
    ((0 ∷ 0 ∷ 0 ∷ 0 ∷ []) ∷ (0 ∷ 0 ∷ 0 ∷ 0 ∷ []) ∷ (0 ∷ 1 ∷ 1 ∷ 0 ∷ []) ∷ (0 ∷ 1 ∷ 1 ∷ 0 ∷ []) ∷ [])
    ∷ ((0 ∷ 0 ∷ 0 ∷ 0 ∷ [])
        ∷ (0 ∷ 0 ∷ 0 ∷ 0 ∷ [])
        ∷ (0 ∷ 1 ∷ 1 ∷ 0 ∷ [])
        ∷ (0 ∷ 1 ∷ 1 ∷ 0 ∷ [])
        ∷ [])
    ∷ ((0 ∷ 0 ∷ 0 ∷ 0 ∷ [])
        ∷ (0 ∷ 0 ∷ 0 ∷ 0 ∷ [])
        ∷ (0 ∷ 1 ∷ 1 ∷ 0 ∷ [])
        ∷ (0 ∷ 1 ∷ 1 ∷ 0 ∷ [])
        ∷ [])
    ∷ ((0 ∷ 0 ∷ 0 ∷ 0 ∷ [])
        ∷ (0 ∷ 0 ∷ 0 ∷ 0 ∷ [])
        ∷ (0 ∷ 1 ∷ 1 ∷ 0 ∷ [])
        ∷ (0 ∷ 1 ∷ 1 ∷ 0 ∷ [])
        ∷ [])
    ∷ []

abbrev shape_5 : List (List (List ℕ))
shape_5 =
    ((0 ∷ 0 ∷ 0 ∷ 0 ∷ []) ∷ (0 ∷ 0 ∷ 1 ∷ 1 ∷ []) ∷ (0 ∷ 1 ∷ 1 ∷ 0 ∷ []) ∷ (0 ∷ 0 ∷ 0 ∷ 0 ∷ []) ∷ [])
    ∷ ((0 ∷ 0 ∷ 0 ∷ 0 ∷ [])
        ∷ (0 ∷ 1 ∷ 0 ∷ 0 ∷ [])
        ∷ (0 ∷ 1 ∷ 1 ∷ 0 ∷ [])
        ∷ (0 ∷ 0 ∷ 1 ∷ 0 ∷ [])
        ∷ [])
    ∷ ((0 ∷ 0 ∷ 0 ∷ 0 ∷ [])
        ∷ (0 ∷ 0 ∷ 1 ∷ 1 ∷ [])
        ∷ (0 ∷ 1 ∷ 1 ∷ 0 ∷ [])
        ∷ (0 ∷ 0 ∷ 0 ∷ 0 ∷ [])
        ∷ [])
    ∷ ((0 ∷ 0 ∷ 0 ∷ 0 ∷ [])
        ∷ (0 ∷ 1 ∷ 0 ∷ 0 ∷ [])
        ∷ (0 ∷ 1 ∷ 1 ∷ 0 ∷ [])
        ∷ (0 ∷ 0 ∷ 1 ∷ 0 ∷ [])
        ∷ [])
    ∷ []

abbrev shape_6 : List (List (List ℕ))
shape_6 =
    ((0 ∷ 0 ∷ 0 ∷ 0 ∷ []) ∷ (0 ∷ 0 ∷ 0 ∷ 0 ∷ []) ∷ (0 ∷ 1 ∷ 1 ∷ 0 ∷ []) ∷ (0 ∷ 0 ∷ 1 ∷ 1 ∷ []) ∷ [])
    ∷ ((0 ∷ 0 ∷ 0 ∷ 0 ∷ [])
        ∷ (0 ∷ 0 ∷ 1 ∷ 0 ∷ [])
        ∷ (0 ∷ 1 ∷ 1 ∷ 0 ∷ [])
        ∷ (0 ∷ 1 ∷ 0 ∷ 0 ∷ [])
        ∷ [])
    ∷ ((0 ∷ 0 ∷ 0 ∷ 0 ∷ [])
        ∷ (0 ∷ 0 ∷ 0 ∷ 0 ∷ [])
        ∷ (0 ∷ 1 ∷ 1 ∷ 0 ∷ [])
        ∷ (0 ∷ 0 ∷ 1 ∷ 1 ∷ [])
        ∷ [])
    ∷ ((0 ∷ 0 ∷ 0 ∷ 0 ∷ [])
        ∷ (0 ∷ 0 ∷ 1 ∷ 0 ∷ [])
        ∷ (0 ∷ 1 ∷ 1 ∷ 0 ∷ [])
        ∷ (0 ∷ 1 ∷ 0 ∷ 0 ∷ [])
        ∷ [])
    ∷ []

-- The table of the header.
unfoldable pub block : List (List (List (List ℕ)))
block = shape_0 ∷ shape_1 ∷ shape_2 ∷ shape_3 ∷ shape_4 ∷ shape_5 ∷ shape_6 ∷ []

-- `block[shape][rotation][i][j]`; the program reads it within the table only.
unfoldable pub block_cell : ℕ → ℕ → ℕ → ℕ → ℕ
unfolding block
block_cell shape rotation i j =
    get_or (get_or (get_or (get_or block shape []) rotation []) i []) j 0

-- The order in which two nested loops over `BLOCK_HEIGHT` rows and `BLOCK_WIDTH` columns visit
-- the cells of a shape.
abbrev pub positions : List (ℕ × ℕ)
positions =
    (0, 0)
    ∷ (0, 1)
    ∷ (0, 2)
    ∷ (0, 3)
    ∷ (1, 0)
    ∷ (1, 1)
    ∷ (1, 2)
    ∷ (1, 3)
    ∷ (2, 0)
    ∷ (2, 1)
    ∷ (2, 2)
    ∷ (2, 3)
    ∷ (3, 0)
    ∷ (3, 1)
    ∷ (3, 2)
    ∷ (3, 3)
    ∷ []
