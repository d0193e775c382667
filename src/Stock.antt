-- ===== src/Stock.antt =====
-- The stock server of 2024_1st/CSE4100/Project_03/task_2/stockserver.c; task_1 has the same tree and
-- the same commands in an event loop. An `int` is a ℤ, and arithmetic on it wraps at 32 bits.
pub mod Order
pub mod Restart
pub mod Server
pub mod Buffer
pub mod Locks
mod Tests
pub mod Count
use package.sogang_university.Shared.{
  ℕ, ◌+◌, Bool, true, false, ◌==◌, ◌&&◌, if◌then◌else◌, Option, none, some,
}
use package.sogang_university.Shared.{List, [], ◌∷◌, ◌++◌}
use package.sogang_university.Shared.Int.{ℤ, pos, eq_ℤ, ltb_ℤ, leb_ℤ, ◌+ℤ◌, ◌-ℤ◌, wrap}

-- The data of a node.
pub record Stock : Type 0 where
  pub id : ℤ
  pub count : ℤ
  pub price : ℤ

-- `stock *`, with `left` and `right`.
pub data Tree : Type 0 where
  null : Tree
  node : Tree → Stock → Tree → Tree

-- The stock of the node found, `none` for a null pointer.
pub find_node : Tree → ℤ → Option Stock
find_node null id = none
find_node (node left s right) id =
    let below = find_node left id in
    let above = find_node right id in
    if eq_ℤ s.id id then some s else if ltb_ℤ id s.id then below else above

-- A write to `count` through the pointer that `find_node` returned.
pub set_count : Tree → ℤ → ℤ → Tree
set_count null id n = null
set_count (node left s right) id n =
    let below = node (set_count left id n) s right in
    let above = node left s (set_count right id n) in
    if eq_ℤ s.id id
    then node left (record s { count = n }) right
    else if ltb_ℤ id s.id
    then below
    else above

pub add_tree : Tree → Stock → Tree
add_tree null s = node null s null
add_tree (node left t right) s =
    let below = node (add_tree left s) t right in
    let above = node left t (add_tree right s) in if ltb_ℤ s.id t.id then below else above

-- The lines that `show_tree` appends to the buffer, and that `print_tree` writes, one a stock.
pub show_tree : Tree → List Stock → List Stock
show_tree null buf = buf
show_tree (node left s right) buf = show_tree right (show_tree left buf ++ (s ∷ []))

-- The loop of `read_stock` over the lines of stock.txt.
pub read_stock : Tree → List Stock → Tree
unfolding add_tree
read_stock root [] = root
read_stock root (s ∷ file) = read_stock (add_tree root s) file

-- The file after `write_stock`.
pub write_stock : Tree → List Stock
unfolding show_tree
write_stock root = show_tree root []
