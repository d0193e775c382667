-- ===== src/Tetris/Game.antt =====
-- The turns of the game: `InitTetris`, `GetCommand`, `ProcessCommand` and the two alarm handlers
-- `BlockDown` and `AutoDown` of 2023_1st/CSE3013/Week_10/Assignment/tetris.c, without the drawing.
-- What `rand` returns is an argument. `score` is C's `int` as a bit pattern, so it wraps at 2 ^ 32.
pub mod Inv
pub mod Turns
use package.sogang_university.Shared.{
  ℕ, zero, suc, ◌+◌, ◌-◌, ◌*◌, ◌/◌, ◌%◌, ◌^◌, Bool, true, false, not,
}
use package.sogang_university.Shared.{◌&&◌, ◌||◌, ◌==◌, if◌then◌else◌, List, [], ◌∷◌, replicate}
use package.sogang_university.Shared.Int.{ℤ, pos, negsuc, add_nat, ◌-ℤ◌}
use package.sogang_university.Tetris.Blocks.{width, height, num_of_shape}
use package.sogang_university.Tetris.Field.{Field, Place, zeros, check_to_move, add_block_to_field}
use package.sogang_university.Tetris.Field.{delete_line}
use package.sogang_university.Tetris.Recommend.{Advice, down as lowered, modified_recommend}

-- The globals of tetris.h that a turn reads or writes; `shape`, `next` and `after` are `nextBlock`.
pub record Game : Type 0 where
  pub field : Field
  pub shape : ℕ
  pub next : ℕ
  pub after : ℕ
  pub rotation : ℕ
  pub y : ℤ
  pub x : ℤ
  pub score : ℕ
  pub game_over : Bool
  pub timed_out : Bool
  pub advice : Advice

abbrev pub place : Game → Place
place g = record { shape = g.shape; rotation = g.rotation; y = g.y; x = g.x }

-- blockY == -1
abbrev pub is_top : ℤ → Bool
is_top (pos n) = false
is_top (negsuc n) = n == 0

abbrev pub add_score : ℕ → ℕ → ℕ
add_score score points = (score + points) % 2 ^ 32

-- What `wgetch` delivers, and the commands.
pub data Key : Type 0 where
  key_up key_down key_left key_right : Key
  letter : ℕ → Key

pub data Command : Type 0 where
  up down left right fall quit nothing : Command

pub get_command : Key → Command
get_command key_up = up
get_command key_down = Command.down
get_command key_left = left
get_command key_right = right
get_command (letter c) =
    if c == b' ' then fall else if c == b'q' || c == b'Q' then quit else nothing

-- The globals as `InitTetris` sets them before the search.
abbrev pub new_game : ℕ → ℕ → ℕ → Game
new_game r0 r1 r2 = record {
  field = replicate height zeros;
  shape = r0 % 7;
  next = r1 % 7;
  after = r2 % 7;
  rotation = 0;
  y = negsuc 0;
  x = pos (width / 2 - 2);
  score = 0;
  game_over = false;
  timed_out = false;
  advice = record { r = 0; y = pos 0; x = pos 0; trees = 0 };
}

module _ (outside : ℤ → ℤ → ℕ) where
  -- recommendR = recommendY = recommendX = 0, and the search on a copy of the field.
  pub advise : Game → Game
  advise g =
      let fresh = record g.advice { r = 0; y = pos 0; x = pos 0 } in
      let found = modified_recommend outside true (g.shape ∷ g.next ∷ g.after ∷ []) g.field fresh in
      record g { advice = found.1 }

  pub init_tetris : ℕ → ℕ → ℕ → Game
  unfolding advise
  init_tetris r0 r1 r2 = advise (new_game r0 r1 r2)

  -- What both handlers do once the shape has its final place `p`: add it, score, clear the full
  -- rows, score, and bring in the next shape.
  pub next_turn : ℕ → Place → Game → Game
  next_turn r p g =
      let (added, touched) = add_block_to_field outside g.field p in
      let (cleared, lines) = delete_line added in
      record g {
        field = cleared;
        shape = g.next;
        next = g.after;
        after = r % 7;
        rotation = 0;
        y = negsuc 0;
        x = pos (width / 2 - 2);
        score = add_score (add_score g.score touched) lines;
      }

  pub settle : ℕ → Place → Game → Game
  unfolding advise next_turn
  settle r p g = advise (next_turn r p g)

  -- `BlockDown`, with what `rand` returns if it is called.
  pub block_down : ℕ → Game → Game
  unfolding settle
  block_down r g =
      let lower = record g { y = add_nat g.y 1; timed_out = false } in
      let over = g.game_over || is_top g.y in
      let settled = settle r (place g) (record g { game_over = over; timed_out = false }) in
      if check_to_move outside g.field (lowered (place g)) then lower else settled

  -- `AutoDown`.
  pub auto_down : ℕ → Game → Game
  unfolding settle
  auto_down r g =
      let advised : Place = record {
        shape = g.shape;
        rotation = g.advice.r;
        y = g.advice.y;
        x = g.advice.x;
      } in
      let settled = settle r advised (record g { timed_out = false }) in
      let over = record g { game_over = true; timed_out = false } in
      if check_to_move outside g.field (place g) then settled else over

  -- `ProcessCommand`: true stands for the return value `QUIT`, false for 1.
  pub process_command : Command → Game → Bool × Game
  process_command quit g = (true, g)
  process_command up g =
      let turned = record g { rotation = (g.rotation + 1) % 4 } in
      (false, (if check_to_move outside g.field (place turned) then turned else g))
  process_command Command.down g =
      let moved = record g { y = add_nat g.y 1 } in
      (false, (if check_to_move outside g.field (place moved) then moved else g))
  process_command right g =
      let moved = record g { x = add_nat g.x 1 } in
      (false, (if check_to_move outside g.field (place moved) then moved else g))
  process_command left g =
      let moved = record g { x = g.x -ℤ pos 1 } in
      (false, (if check_to_move outside g.field (place moved) then moved else g))
  process_command fall g = (false, g)
  process_command nothing g = (false, g)
