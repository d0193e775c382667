-- ===== src/Tetris/Game/Inv.antt =====
-- What holds of the game's globals at every moment of a game.
use sogang_university.Shared.{ℕ, ◌<◌, ◌≡◌, refl, arith, Bool, true, false, if_keeps}
use sogang_university.Shared.{length, All, All-replicate, ◌||◌}
use sogang_university.Shared.Int.{ℤ, pos, negsuc, leb_ℤ, add_nat}
use sogang_university.Tetris.Blocks.{width, height, num_of_shape, num_of_rotate}
use sogang_university.Tetris.Field.{Row, Place, zeros, check_to_move, add_block_to_field}
use sogang_university.Tetris.Field.Delete.{IsField, is_full, delete_line-IsField}
use sogang_university.Tetris.Field.Add.{add_block_to_field-IsField}
use sogang_university.Tetris.Recommend.{down as lowered}
use sogang_university.Tetris.Game.{
  Game, place, is_top, Key, Command, get_command, up, left, right, fall, quit, nothing, advise,
  init_tetris, new_game, next_turn, settle, block_down, auto_down, process_command,
}

-- The field has its size and no full row, the shapes and the rotation are in the table, and the
-- shape is at most one row above the field.
pub record IsGame (g : Game) : Type 0 where
  pub size : IsField g.field
  pub clear : All (λ (r : Row). is_full r ≡ false) g.field
  pub shape : g.shape < num_of_shape
  pub next : g.next < num_of_shape
  pub after : g.after < num_of_shape
  pub rotation : g.rotation < num_of_rotate
  pub above : leb_ℤ (negsuc 0) g.y ≡ true

-- A game: it starts, keys are pressed, and the alarm of either kind of play goes off.
pub data Reachable (outside : ℤ → ℤ → ℕ) : Game → Type 0 where
  start : (r0 r1 r2 : ℕ) → Reachable outside (init_tetris outside r0 r1 r2)
  press :
      {g : Game} (k : Key)
      → Reachable outside g
      → Reachable outside (process_command outside (get_command k) g).1
  alarm : {g : Game} (r : ℕ) → Reachable outside g → Reachable outside (block_down outside r g)
  auto_alarm : {g : Game} (r : ℕ) → Reachable outside g → Reachable outside (auto_down outside r g)

pub new_game-IsGame : (r0 r1 r2 : ℕ) → IsGame (new_game r0 r1 r2)
new_game-IsGame r0 r1 r2 = record {
  size = record {
    rows = refl;
    columns = All-replicate (λ (r : Row). length r ≡ width) height zeros refl;
  };
  clear = All-replicate (λ (r : Row). is_full r ≡ false) height zeros refl;
  shape = omega arith;
  next = omega arith;
  after = omega arith;
  rotation = omega arith;
  above = refl;
}

module _ (outside : ℤ → ℤ → ℕ) where
  advise-IsGame : {g : Game} → IsGame g → IsGame (advise outside g)
  unfolding advise
  advise-IsGame h = record {
    size = h.size;
    clear = h.clear;
    shape = h.shape;
    next = h.next;
    after = h.after;
    rotation = h.rotation;
    above = h.above;
  }

  init_tetris-IsGame : (r0 r1 r2 : ℕ) → IsGame (init_tetris outside r0 r1 r2)
  unfolding init_tetris
  init_tetris-IsGame r0 r1 r2 = advise-IsGame {g = new_game r0 r1 r2} (new_game-IsGame r0 r1 r2)

  next_turn-IsGame : (r : ℕ) (p : Place) {g : Game} → IsGame g → IsGame (next_turn outside r p g)
  unfolding next_turn
  next_turn-IsGame r p {g} h =
      let added = add_block_to_field-IsField outside g.field p h.size in
      let cleared = delete_line-IsField (add_block_to_field outside g.field p).0 added in
      record {
        size = cleared.0;
        clear = cleared.1;
        shape = h.next;
        next = h.after;
        after = omega arith;
        rotation = omega arith;
        above = refl;
      }

  settle-IsGame : (r : ℕ) (p : Place) {g : Game} → IsGame g → IsGame (settle outside r p g)
  unfolding settle
  settle-IsGame r p {g} h = advise-IsGame {g = next_turn outside r p g} (next_turn-IsGame r p h)

  add_nat-above : (z : ℤ) → leb_ℤ (negsuc 0) z ≡ true → leb_ℤ (negsuc 0) (add_nat z 1) ≡ true
  add_nat-above (pos n) h = ground arith
  add_nat-above (negsuc n) h = ground arith

  -- The fields that the invariant reads are the same.
  IsGame-lower : {g : Game} → IsGame g → IsGame (record g { y = add_nat g.y 1 })
  IsGame-lower {g} h = record {
    size = h.size;
    clear = h.clear;
    shape = h.shape;
    next = h.next;
    after = h.after;
    rotation = h.rotation;
    above = add_nat-above g.y h.above;
  }

  pub IsGame-flags :
      {g : Game} (a b : Bool) → IsGame g → IsGame (record g { game_over = a; timed_out = b })
  IsGame-flags {g} a b h = record {
    size = h.size;
    clear = h.clear;
    shape = h.shape;
    next = h.next;
    after = h.after;
    rotation = h.rotation;
    above = h.above;
  }

  block_down-IsGame : (r : ℕ) {g : Game} → IsGame g → IsGame (block_down outside r g)
  unfolding block_down
  block_down-IsGame r {g} h =
      let over = g.game_over || is_top g.y in
      if_keeps IsGame (check_to_move outside g.field (lowered (place g))) _ _
        (IsGame-flags {g = record g { y = add_nat g.y 1 }} g.game_over false (IsGame-lower h))
        (settle-IsGame r (place g) (IsGame-flags over false h))

  auto_down-IsGame : (r : ℕ) {g : Game} → IsGame g → IsGame (auto_down outside r g)
  unfolding auto_down
  auto_down-IsGame r {g} h =
      if_keeps IsGame (check_to_move outside g.field (place g)) _ _
        (settle-IsGame r
          (record { shape = g.shape; rotation = g.advice.r; y = g.advice.y; x = g.advice.x })
          (IsGame-flags g.game_over false h))
        (IsGame-flags true false h)

  process_command-IsGame :
      (c : Command) {g : Game} → IsGame g → IsGame (process_command outside c g).1
  unfolding process_command
  process_command-IsGame up {g} h = ground (arith, h)
  process_command-IsGame Command.down {g} h = if_keeps IsGame _ _ _ (IsGame-lower h) h
  process_command-IsGame left h = ground (arith, h)
  process_command-IsGame right h = ground (arith, h)
  process_command-IsGame fall h = h
  process_command-IsGame quit h = h
  process_command-IsGame nothing h = h

-- In every state of a game, whatever keys are pressed, whatever `rand` returns and whatever C reads
-- outside the field's array, the field has its size and no full row, the shapes and the rotation
-- lie in the table of shapes, and the shape stands at row -1 or below.
pub Reachable-IsGame : (outside : ℤ → ℤ → ℕ) {g : Game} → Reachable outside g → IsGame g
Reachable-IsGame outside (start r0 r1 r2) = init_tetris-IsGame outside r0 r1 r2
Reachable-IsGame outside (press k g) =
    process_command-IsGame outside (get_command k) (Reachable-IsGame outside g)
Reachable-IsGame outside (alarm r g) = block_down-IsGame outside r (Reachable-IsGame outside g)
Reachable-IsGame outside (auto_alarm r g) = auto_down-IsGame outside r (Reachable-IsGame outside g)
