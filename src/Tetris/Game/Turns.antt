-- ===== src/Tetris/Game/Turns.antt =====
-- What a key and an alarm do to the game.
use sogang_university.Shared.{
  Bool-cases, inl, inr, ℕ, ◌+◌, ◌*◌, ◌%◌, ◌^◌, ◌≡◌, refl, ap, arith, true, false,
}
use sogang_university.Shared.{◌||◌, ◌++◌, replicate}
use sogang_university.Shared.Int.{ℤ, pos, negsuc, add_nat}
use sogang_university.Tetris.Blocks.{positions}
use sogang_university.Tetris.Field.{Field, Place, zeros, check_to_move, add_block_to_field}
use sogang_university.Tetris.Field.Delete.{count_full, kept, delete_line_lem}
use sogang_university.Tetris.Field.Add.{count_rests, add_block_to_field-IsField}
use sogang_university.Tetris.Field.Score.{add_block_to_field-score}
use sogang_university.Tetris.Recommend.{down as lowered}
use sogang_university.Tetris.Game.{
  Game, Command, place, is_top, up, left, right, fall, quit, nothing,
}
use sogang_university.Tetris.Game.{settle, block_down, process_command}
use sogang_university.Tetris.Game.Inv.{IsGame, IsGame-flags}

-- A command changes no cell, no score and no shape, a shape that fits still fits after it, and only
-- `QUIT` ends the loop.
pub process_command-fits :
    (outside : ℤ → ℤ → ℕ) (c : Command) (g : Game)
    → let (stop, g') = process_command outside c g in
      (g'.field ≡ g.field)
      × (g'.score ≡ g.score)
      × (g'.shape ≡ g.shape)
      × (check_to_move outside g.field (place g) ≡ true
          → check_to_move outside g'.field (place g') ≡ true)
      × (stop ≡ true → c ≡ quit)
unfolding process_command
process_command-fits outside up g = ground arith
process_command-fits outside Command.down g = ground arith
process_command-fits outside left g = ground arith
process_command-fits outside right g = ground arith
process_command-fits outside fall g = (refl, refl, refl, λ h. h, λ e. cc)
process_command-fits outside quit g = (refl, refl, refl, λ h. h, λ e. refl)
process_command-fits outside nothing g = (refl, refl, refl, λ h. h, λ e. cc)

module _ (outside : ℤ → ℤ → ℕ) (r : ℕ) (p : Place) (g : Game) (h : IsGame g) where
  added : Field
  added = (add_block_to_field outside g.field p).0

  settle-score :
      (settle outside r p g).score
      ≡ (g.score + count_rests g.field p positions * 10 + count_full added * count_full added * 100)
        % 2 ^ 32
  unfolding settle added
  settle-score =
      let touched = add_block_to_field-score outside g.field p h.size in
      let lines =
        ap (λ (d : Field × ℕ). d.1)
          (delete_line_lem added (add_block_to_field-IsField outside g.field p h.size)) in
      omega (arith, touched, lines)

  -- The rest of what `settle` leaves.
  settle-field :
      ((settle outside r p g).field ≡ replicate (count_full added) zeros ++ kept added)
      × ((settle outside r p g).shape ≡ g.next)
      × ((settle outside r p g).next ≡ g.after)
      × ((settle outside r p g).after ≡ r % 7)
      × ((settle outside r p g).game_over ≡ g.game_over)
      × ((settle outside r p g).rotation ≡ 0)
      × ((settle outside r p g).y ≡ negsuc 0)
      × ((settle outside r p g).x ≡ pos 3)
  unfolding settle added
  settle-field = (
    ap (λ (d : Field × ℕ). d.0)
        (delete_line_lem added (add_block_to_field-IsField outside g.field p h.size)),
    refl,
    refl,
    refl,
    refl,
    refl,
    refl,
    refl,
  )

-- `BlockDown` while the shape can move lowers it by a row and changes nothing else of the game but that
-- `timed_out`, which it always clears. When it cannot, the shape is added where it stands and the rows then full are taken out; the score grows,
-- modulo 2 ^ 32, by ten for each of its cells that rests on the floor or on a filled cell and by 100
-- times the square of the number of full rows; the next shape starts at row -1 and column 3 in its
-- first rotation, `rand` chooses the last of the shapes to come, and the game is over exactly if it was before or the shape had not left row -1.
pub block_down-turn :
    (outside : ℤ → ℤ → ℕ) (r : ℕ) (g : Game)
    → IsGame g
    → let g' = block_down outside r g in
      let added = (add_block_to_field outside g.field (place g)).0 in
      (check_to_move outside g.field (lowered (place g)) ≡ true
        → (g'.y ≡ add_nat g.y 1)
          × (g'.field ≡ g.field)
          × (g'.score ≡ g.score)
          × (g'.shape ≡ g.shape)
          × (g'.next ≡ g.next)
          × (g'.after ≡ g.after)
          × (g'.rotation ≡ g.rotation)
          × (g'.x ≡ g.x)
          × (g'.advice ≡ g.advice)
          × (g'.game_over ≡ g.game_over))
      × (check_to_move outside g.field (lowered (place g)) ≡ false
          → (g'.score
              ≡ (g.score
                  + count_rests g.field (place g) positions * 10
                  + count_full added * count_full added * 100)
                % 2 ^ 32)
            × (g'.field ≡ replicate (count_full added) zeros ++ kept added)
            × (g'.shape ≡ g.next)
            × (g'.next ≡ g.after)
            × (g'.after ≡ r % 7)
            × (g'.game_over ≡ g.game_over || is_top g.y)
            × (g'.rotation ≡ 0)
            × (g'.y ≡ negsuc 0)
            × (g'.x ≡ pos 3))
      × (g'.timed_out ≡ false)
unfolding block_down added
block_down-turn outside r g h = (
  λ free. rw free (refl, refl, refl, refl, refl, refl, refl, refl, refl, refl),
  λ stuck.
      let g1 = record g { game_over = g.game_over || is_top g.y; timed_out = false } in
      let h1 = IsGame-flags outside {g = g} (g.game_over || is_top g.y) false h in
      let rest = settle-field outside r (place g) g1 h1 in
      rw stuck (
        settle-score outside r (place g) g1 h1,
        rest.0,
        rest.1,
        rest.2,
        rest.3,
        rest.4,
        rest.5,
        rest.6,
        rest.7,
      ),
  elim (Bool-cases (check_to_move outside g.field (lowered (place g)))) [
    | inl e ↦ rw e refl
    | inr e ↦ rw e refl
  ],
)
