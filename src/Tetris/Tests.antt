-- ===== src/Tetris/Tests.antt =====
-- Runs of the game's functions on small data, and the theorems at concrete inputs.
use sogang_university.Shared.{ℕ, ◌+◌, ◌*◌, ◌%◌, ◌^◌, ◌≡◌, refl, ◌↔◌, arith, true, false}
use sogang_university.Shared.{◌||◌, some, if◌then◌else◌, [], ◌∷◌, ◌++◌, replicate}
use sogang_university.Shared.Int.{ℤ, pos, negsuc, add_nat}
use sogang_university.Tetris.Blocks.{positions, block_cell}
use sogang_university.Tetris.Field.{Field, Place, zeros, cell, check_to_move, add_block_to_field}
use sogang_university.Tetris.Field.{delete_line}
use sogang_university.Tetris.Field.Delete.{IsField, count_full, kept, delete_line_lem}
use sogang_university.Tetris.Field.Check.{Fits, check_to_move_iff}
use sogang_university.Tetris.Field.Add.{covers, count_rests, add_block_to_field-cell}
use sogang_university.Tetris.Field.Score.{add_block_to_field-score}
use sogang_university.Tetris.Recommend.{Advice, landing, down as lowered}
use sogang_university.Tetris.Recommend.Landing.{Lands, landing-Lands}
use sogang_university.Tetris.Game.{Game, place, is_top, init_tetris, new_game, block_down}
use sogang_university.Tetris.Game.Inv.{IsGame, new_game-IsGame, start, alarm, Reachable-IsGame}
use sogang_university.Tetris.Game.Turns.{block_down-turn}
use sogang_university.Tetris.Rank.{Entry, Ranking, new_rank}
use sogang_university.Tetris.Rank.{list_ranks}
use sogang_university.Tetris.Rank.Laws.{IsRanking, put, new_rank-IsRanking}

-- Twenty empty rows, a full one, and one with a single cell.
abbrev sample : Field
sample = replicate 20 zeros ++ (replicate 10 1 ∷ (1 ∷ replicate 9 0) ∷ [])

abbrev nowhere : ℤ → ℤ → ℕ
nowhere y x = 0

sample-IsField : IsField sample
sample-IsField = omega arith

-- The square over the single cell's row, resting on the full row.
abbrev square : Place
square = record { shape = 4; rotation = 0; y = pos 16; x = pos 3 }

square-fits : check_to_move nowhere sample square ≡ true
unfolding check_to_move block_cell
square-fits = refl

square-scores : (add_block_to_field nowhere sample square).1 ≡ 20
unfolding add_block_to_field block_cell
square-scores = refl

sample-deleted : delete_line sample ≡ (replicate 21 zeros ++ ((1 ∷ replicate 9 0) ∷ []), 100)
unfolding delete_line
sample-deleted = refl

delete_line_lem_example : delete_line sample ≡ (
  replicate (count_full sample) zeros ++ kept sample,
  count_full sample * count_full sample * 100,
)
delete_line_lem_example = delete_line_lem sample sample-IsField

check_to_move_iff_example :
    (check_to_move nowhere sample square ≡ true) ↔ Fits sample square positions
check_to_move_iff_example = check_to_move_iff nowhere sample square (omega arith)

add_block_to_field-cell_example :
    IsField (add_block_to_field nowhere sample square).0
    × (cell (add_block_to_field nowhere sample square).0 18 4
        ≡ (if covers square positions 18 4 then 1 else cell sample 18 4))
add_block_to_field-cell_example =
    add_block_to_field-cell nowhere sample square 18 4 sample-IsField (omega arith) (omega arith)

add_block_to_field-score_example :
    (add_block_to_field nowhere sample square).1 ≡ count_rests sample square positions * 10
add_block_to_field-score_example = add_block_to_field-score nowhere sample square sample-IsField

landing-Lands_example : Lands nowhere sample 4 0 (pos 3) 0 (landing nowhere sample 4 (0, pos 3))
landing-Lands_example = landing-Lands nowhere sample 4 0 (pos 3) (omega arith) (omega arith)

abbrev fresh : Advice
fresh = record { r = 0; y = pos 0; x = pos 0; trees = 0 }

Reachable-IsGame_example : IsGame (block_down nowhere 12 (init_tetris nowhere 8 3 4))
Reachable-IsGame_example = Reachable-IsGame nowhere (alarm 12 (start 8 3 4))

abbrev opening : Game
opening = new_game 8 3 4

opening-IsGame : IsGame opening
opening-IsGame = new_game-IsGame 8 3 4

block_down-turn_example :
    let g' = block_down nowhere 12 opening in
    let added = (add_block_to_field nowhere opening.field (place opening)).0 in
    (check_to_move nowhere opening.field (lowered (place opening)) ≡ true
      → (g'.y ≡ add_nat opening.y 1)
        × (g'.field ≡ opening.field)
        × (g'.score ≡ opening.score)
        × (g'.shape ≡ opening.shape)
        × (g'.next ≡ opening.next)
        × (g'.after ≡ opening.after)
        × (g'.rotation ≡ opening.rotation)
        × (g'.x ≡ opening.x)
        × (g'.advice ≡ opening.advice)
        × (g'.game_over ≡ opening.game_over))
    × (check_to_move nowhere opening.field (lowered (place opening)) ≡ false
        → (g'.score
            ≡ (opening.score
                + count_rests opening.field (place opening) positions * 10
                + count_full added * count_full added * 100)
              % 2 ^ 32)
          × (g'.field ≡ replicate (count_full added) zeros ++ kept added)
          × (g'.shape ≡ opening.next)
          × (g'.next ≡ opening.after)
          × (g'.after ≡ 12 % 7)
          × (g'.game_over ≡ opening.game_over || is_top opening.y)
          × (g'.rotation ≡ 0)
          × (g'.y ≡ negsuc 0)
          × (g'.x ≡ pos 3))
    × (g'.timed_out ≡ false)
block_down-turn_example = block_down-turn nowhere 12 opening opening-IsGame

abbrev entry : ℕ → ℕ → Entry
entry c n = record { name = c ∷ []; score = pos n }

abbrev ranking : Ranking
ranking = record { entries = entry 97 300 ∷ entry 98 200 ∷ entry 99 200 ∷ []; num = 3 }

ranking-IsRanking : IsRanking ranking
ranking-IsRanking = omega arith

list_ranks-two : list_ranks (pos 2) (pos 9) ranking ≡ some (entry 98 200 ∷ entry 99 200 ∷ [])
unfolding list_ranks
list_ranks-two = refl

new_rank-IsRanking_example :
    IsRanking (new_rank (100 ∷ []) (pos 200) ranking)
    × ((new_rank (100 ∷ []) (pos 200) ranking).entries ≡ put (entry 100 200) ranking.entries)
new_rank-IsRanking_example = new_rank-IsRanking (100 ∷ []) (pos 200) ranking ranking-IsRanking
