-- ===== src/Tetris.antt =====
-- The game of 2023_1st/CSE3013/Week_10/Assignment: shapes, the field, and what acts on it.
pub mod Blocks
pub mod Field
pub mod Recommend
pub mod Game
pub mod Rank
mod Tests
