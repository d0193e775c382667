-- ===== src/Stock/Server.antt =====
-- `stock_server` of 2024_1st/CSE4100/Project_03/task_2/stockserver.c: the commands of one client.
-- A command holds the semaphore `w` (or is a reader that excludes writers) from before it looks at
-- the tree until after its change, so commands of several clients follow one another.
-- `scan line` is what `sscanf(buf, "%s %d %d\n", temp, &id, &count)` stores in `id` and `count`,
-- `line_size` the number of bytes that sprintf makes of a stock.
pub mod Room
pub mod Orders
use sogang_university.Shared.{
  ℕ, ◌+◌, ◌-◌, Bool, ◌==◌, ◌&&◌, ◌||◌, ltb, if◌then◌else◌, Option, none, some, List, [], ◌∷◌, ◌++◌,
  bytes_eq,
}
use sogang_university.Shared.Int.{ℤ, pos, leb_ℤ, ◌+ℤ◌, ◌-ℤ◌, wrap}
use sogang_university.Stock.{Stock, Tree, find_node, set_count, show_tree, write_stock}

-- What is written to the client.
pub data Reply : Type 0 where
  shown : List Stock → Reply
  exited no_such_stock bought not_enough sold : Reply

-- The server goes on, the client's loop ends, the process ends (`exit(0)`), or memory behind an array
-- is written.
pub data Outcome : Type 0 where
  go_on : Tree → List Reply → Outcome
  leave : List Reply → Outcome
  halt : List Reply → Outcome
  overrun : Outcome

pub buy : Tree → ℤ → ℤ → Outcome
buy root id count = elim (find_node root id) [
  | none ↦ halt (no_such_stock ∷ [])
  | some s ↦
      if leb_ℤ count s.count
      then go_on (set_count root id (wrap (s.count -ℤ count))) (bought ∷ [])
      else go_on root (not_enough ∷ [])
]

pub sell : Tree → ℤ → ℤ → Outcome
sell root id count = elim (find_node root id) [
  | none ↦ halt (no_such_stock ∷ [])
  | some s ↦ go_on (set_count root id (wrap (s.count +ℤ count))) (sold ∷ [])
]

abbrev pub show_line : List ℕ
show_line = b's' ∷ b'h' ∷ b'o' ∷ b'w' ∷ 10 ∷ []

abbrev pub exit_line : List ℕ
exit_line = b'e' ∷ b'x' ∷ b'i' ∷ b't' ∷ 10 ∷ []

-- buf[0]; a line read is never empty.
abbrev pub first_byte : List ℕ → ℕ
first_byte [] = 0
first_byte (c ∷ line) = c

-- Spaces in the sense of sscanf, and the length of the word that a line begins with.
abbrev pub is_space : ℕ → Bool
is_space c = c == 32 || ltb 8 c && ltb c 14

abbrev pub word_size : List ℕ → ℕ
word_size [] = 0
word_size (c ∷ line) = let rest = word_size line in if is_space c then 0 else rest + 1

abbrev pub maxline : ℕ
maxline = 8192

-- The length of the text of a list of stocks, from that of each line.
abbrev pub text_size : (Stock → ℕ) → List Stock → ℕ
text_size line_size [] = 0
text_size line_size (s ∷ stocks) = line_size s + text_size line_size stocks

-- The clients connected, the tree, and stock.txt.
pub record Server : Type 0 where
  pub root : Tree
  pub client_cnt : ℕ
  pub file : List Stock

-- client_cnt++
abbrev pub enter : Server → Server
enter s = record s { client_cnt = s.client_cnt + 1 }

-- client_cnt--; the last client to go has the stocks written.
abbrev pub depart : Server → Server
depart s =
    let clients = s.client_cnt - 1 in
    record s { client_cnt = clients; file = if clients == 0 then write_stock s.root else s.file }

module _ (scan : List ℕ → ℤ × ℤ) (line_size : Stock → ℕ) where
  -- The body of the loop for one line. show_tree writes to `buf` of MAXLINE bytes, sscanf to `temp` of 10.
  pub command : Tree → List ℕ → Outcome
  unfolding buy sell
  command root line =
      let (id, count) = scan line in
      if bytes_eq line show_line
      then if ltb (text_size line_size (show_tree root [])) maxline
        then go_on root (shown (show_tree root []) ∷ [])
        else overrun
      else if bytes_eq line exit_line
      then leave (exited ∷ [])
      else if first_byte line == b'b'
      then if ltb (word_size line) 10 then buy root id count else overrun
      else if first_byte line == b's'
      then if ltb (word_size line) 10 then sell root id count else overrun
      else go_on root []

  -- The lines of a client, up to the end of the connection. `none` is the end of the process, or
  -- memory overrun; else
  -- the tree, and what the client was sent.
  pub client_loop : Tree → List (List ℕ) → Option (Tree × List Reply)
  unfolding command
  client_loop root [] = some (root, [])
  client_loop root (line ∷ lines) = elim (command root line) [
    | go_on root' sent ↦ elim (client_loop root' lines) [
      | none ↦ none
      | some (final, later) ↦ some (final, sent ++ later)
    ]
    | leave sent ↦ some (root, sent)
    | halt sent ↦ none
    | overrun ↦ none
  ]

  -- `stock_server` for one client, where no other client comes or goes meanwhile.
  pub stock_server : Server → List (List ℕ) → Option (Server × List Reply)
  unfolding client_loop
  stock_server s lines =
      let s' = enter s in
      elim (client_loop s'.root lines) [
        | none ↦ none
        | some (root, sent) ↦ some (depart (record s' { root = root }), sent)
      ]
