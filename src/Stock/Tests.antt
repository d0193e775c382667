-- ===== src/Stock/Tests.antt =====
-- Runs of the stock server on small data, and the theorems at concrete inputs.
use sogang_university.Shared.{
  ℕ, ◌+◌, ◌≤◌, ◌≡◌, ◌<◌, refl, arith, false, none, some, List, [], ◌∷◌, ◌++◌, All,
}
use sogang_university.Shared.Int.{ℤ, pos, leb_ℤ, ◌≤ℤ◌, ◌+ℤ◌, ◌-ℤ◌, IsInt}
use sogang_university.Stock.{Stock, Tree, null, node, find_node, read_stock, write_stock}
use sogang_university.Stock.Order.{IsSearch, inorder, lookup, find_node-lookup}
use sogang_university.Stock.Restart.{restart_same}
use sogang_university.Stock.Server.{
  Reply, bought, not_enough, sold, no_such_stock, go_on, halt, buy, sell, Server, show_line,
  stock_server,
}
use sogang_university.Stock.Server.Orders.{Sets, order_effects, IsKnown, stock_server-restart}
use sogang_university.Stock.Buffer.{
  Sbuf, sbuf_init, wait_slot, put, post_item, wait_item, take, Reachable, start, next, put_item,
  take_item,
}
use sogang_university.Stock.Locks.{Locks, init_stock_server, ask_read, count_first, take_w, read}
use sogang_university.Stock.Locks as L
use sogang_university.Stock.Locks.Exclusion.{exclusion, left_to_do, no_deadlock}
use sogang_university.Stock.Buffer.Fifo.{window, in_order}

abbrev stock : ℕ → ℕ → ℕ → Stock
stock id count price = record { id = pos id; count = pos count; price = pos price }

-- The lines of a stock.txt.
abbrev listed : List Stock
listed = stock 5 10 100 ∷ stock 2 7 300 ∷ stock 9 1 50 ∷ []

abbrev shop : Tree
shop = node (node null (stock 2 7 300) null) (stock 5 10 100) (node null (stock 9 1 50) null)

shop-read : read_stock null listed ≡ shop
unfolding read_stock
shop-read = refl

shop-written : write_stock shop ≡ stock 2 7 300 ∷ stock 5 10 100 ∷ stock 9 1 50 ∷ []
unfolding write_stock
shop-written = refl

shop-IsSearch : IsSearch shop
shop-IsSearch = omega arith

nine : find_node shop (pos 9) ≡ some (stock 9 1 50)
unfolding find_node
nine = refl

find_node-lookup_example : find_node shop (pos 9) ≡ lookup (pos 9) (inorder shop)
find_node-lookup_example = find_node-lookup shop (pos 9) shop-IsSearch

restart_same_example :
    (find_node (read_stock null (write_stock shop)) (pos 9) ≡ find_node shop (pos 9))
    × (write_stock (read_stock null (write_stock shop)) ≡ write_stock shop)
restart_same_example = restart_same shop (pos 9) shop-IsSearch

order_effects_example :
    ((s : Stock)
      → find_node shop (pos 5) ≡ some s
      → (pos 3 ≤ℤ s.count
          → IsInt (s.count -ℤ pos 3)
          → Sets shop (pos 5) (s.count -ℤ pos 3) bought (buy shop (pos 5) (pos 3)))
        × (leb_ℤ (pos 3) s.count ≡ false → buy shop (pos 5) (pos 3) ≡ go_on shop (not_enough ∷ []))
        × (IsInt (s.count +ℤ pos 3)
            → Sets shop (pos 5) (s.count +ℤ pos 3) sold (sell shop (pos 5) (pos 3))))
    × (find_node shop (pos 5) ≡ none
        → (buy shop (pos 5) (pos 3) ≡ halt (no_such_stock ∷ []))
          × (sell shop (pos 5) (pos 3) ≡ halt (no_such_stock ∷ [])))
order_effects_example = order_effects shop (pos 5) (pos 3)

none_left : IsInt (pos 1 -ℤ pos 1)
unfolding ◌-ℤ◌
none_left = omega arith

-- Every order asks for two of stock 5.
abbrev asks : List ℕ → ℤ × ℤ
asks line = (pos 5, pos 2)

abbrev widest : Stock → ℕ
widest s = 36

abbrev server : Server
server = record { root = shop; client_cnt = 0; file = listed }

abbrev visit : List (List ℕ)
visit = show_line ∷ (b'b' ∷ b'u' ∷ b'y' ∷ 10 ∷ []) ∷ []

five : find_node shop (pos 5) ≡ some (stock 5 10 100)
unfolding find_node
five = refl

visit-IsKnown : All (IsKnown asks shop) visit
visit-IsKnown = (
  λ order. (omega arith, ground (arith, five)),
  (λ order. (omega arith, ground (arith, five)), tt),
)

stock_server-restart_example :
    (s' : Server) × (sent : List Reply) × (stock_server asks widest server visit ≡ some (s', sent))
    × (s'.client_cnt ≡ 0)
    × IsSearch s'.root
    × (find_node (read_stock null s'.file) (pos 5) ≡ find_node s'.root (pos 5))
    × (write_stock (read_stock null s'.file) ≡ s'.file)
stock_server-restart_example =
    stock_server-restart asks widest server visit (pos 5) (λ s. omega arith) (omega arith) refl
      shop-IsSearch visit-IsKnown

-- A buffer of two cells: connection 4 was put in and taken out, and 6 put in.
abbrev used : Sbuf
used = record {
  buf = 6 ∷ 4 ∷ [];
  n = 2;
  front = 1;
  rear = 2;
  slots = 0;
  items = 0;
  inserting = 0;
  posting = 1;
  taking = 0;
  releasing = 1;
  sent = 4 ∷ 6 ∷ [];
  received = 4 ∷ [];
}

used-Reachable : Reachable 2 used
unfolding sbuf_init put_item take_item
used-Reachable =
    let first = next (next start (wait_slot (omega arith))) (put 4 (omega arith) (omega arith)) in
    let ready = next (next first (post_item (omega arith))) (wait_item (omega arith)) in
    let taken = next ready (take (omega arith) (omega arith)) in
    next (next taken (wait_slot (omega arith))) (put 6 (omega arith) (omega arith))

in_order_example :
    (held : ℕ) × (held ≤ 2)
    × (used.items ≤ held)
    × (used.slots + held ≤ 2)
    × (used.sent ≡ used.received ++ window used.buf 2 (used.front + 1) held)
in_order_example = in_order used used-Reachable

-- One reader is in show_tree.
abbrev shown_once : Locks
shown_once = record {
  mutex = 1;
  w = 0;
  readcnt = 1;
  arriving = 0;
  waiting = 0;
  admitted = 0;
  reading = 1;
  leaving = 0;
  last = 0;
  released = 0;
  writing = 0;
}

shown_once-Reachable : L.Reachable shown_once
unfolding init_stock_server
shown_once-Reachable =
    let counted =
      L.next (L.next L.start (ask_read (omega arith))) (count_first (omega arith) refl) in
    L.next (L.next counted (take_w (omega arith) (omega arith))) (read (omega arith))

exclusion_example : (shown_once.writing ≤ 1) × (0 < shown_once.reading → shown_once.writing ≡ 0)
exclusion_example = exclusion shown_once shown_once-Reachable

no_deadlock_example : (t : Locks) × L.Step shown_once t × (left_to_do t < left_to_do shown_once)
no_deadlock_example = no_deadlock shown_once shown_once-Reachable (omega arith)
