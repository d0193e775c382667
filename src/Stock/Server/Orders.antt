-- ===== src/Stock/Server/Orders.antt =====
-- What `buy` and `sell` do to the stocks, and what a client leaves behind.
use sogang_university.Shared.{
  ℕ, ◌*◌, ◌<◌, ◌≤◌, ltb, ◌==◌, ◌≡◌, refl, arith, inl, inr, Bool, true, false, Bool-cases, ◌≢◌, ◌⊎◌,
  not, ◌&&◌, ◌||◌, All,
}
use sogang_university.Shared.{if◌then◌else◌, Option, none, some, List, [], ◌∷◌, ◌++◌, bytes_eq}
use sogang_university.Shared.Int.{
  ℤ, eq_ℤ, leb_ℤ, ◌≤ℤ◌, ◌+ℤ◌, ◌-ℤ◌, IsInt, wrap, wrap_lem, +ℤ_parts, -ℤ_parts, eq_of_parts,
}
use sogang_university.Stock.{
  Stock, Tree, null, find_node, set_count, show_tree, write_stock, read_stock,
}
use sogang_university.Stock.Order.{IsSearch}
use sogang_university.Stock.Restart.{restart_same}
use sogang_university.Stock.Count.{
  with_count, find_node-set_count, set_count_twice, set_count_same, set_count-IsSearch,
}
use sogang_university.Stock.Server.Room.{stocks, stocks-set_count, text_size-show_tree}
use sogang_university.Stock.Server.{maxline, word_size, text_size}
use sogang_university.Stock.Server.{
  Reply, shown, exited, bought, not_enough, sold, no_such_stock, Outcome, go_on, leave, halt,
}
use sogang_university.Stock.Server.{
  buy, sell, show_line, exit_line, first_byte, Server, enter, depart, command, client_loop,
  stock_server,
}

-- The outcome goes on with the reply from a tree that differs in the count of one stock only.
abbrev pub Sets : Tree → ℤ → ℤ → Reply → Outcome → Type 0
Sets t id n reply o =
    (t' : Tree) × (o ≡ go_on t' (reply ∷ []))
    × ((k : ℤ)
        → find_node t' k ≡ (if eq_ℤ id k then with_count n (find_node t k) else find_node t k))

-- An order for a stock that the server has, whose result is in the range of `int`: `buy` takes the
-- amount off if there is as much and else changes nothing, `sell` adds it, and no other stock
-- changes. An order for a stock that it does not have ends the server.
pub order_effects :
    (t : Tree) (id count : ℤ)
    → ((s : Stock)
        → find_node t id ≡ some s
        → (count ≤ℤ s.count
            → IsInt (s.count -ℤ count)
            → Sets t id (s.count -ℤ count) bought (buy t id count))
          × (leb_ℤ count s.count ≡ false → buy t id count ≡ go_on t (not_enough ∷ []))
          × (IsInt (s.count +ℤ count) → Sets t id (s.count +ℤ count) sold (sell t id count)))
      × (find_node t id ≡ none
          → (buy t id count ≡ halt (no_such_stock ∷ []))
            × (sell t id count ≡ halt (no_such_stock ∷ [])))
unfolding buy sell
order_effects t id count = (
  λ s found. (
    λ enough range. (
      set_count t id (s.count -ℤ count),
      ground (arith, wrap_lem (s.count -ℤ count) range),
      find_node-set_count t id (s.count -ℤ count),
    ),
    λ short. ground arith,
    λ range. (
      set_count t id (s.count +ℤ count),
      ground (arith, wrap_lem (s.count +ℤ count) range),
      find_node-set_count t id (s.count +ℤ count),
    ),
  ),
  λ missing. (ground arith, ground arith),
)

-- What was bought can be sold back: the tree is then the one before, node for node.
pub buy-sell :
    (t : Tree) (id count : ℤ) (s : Stock)
    → find_node t id ≡ some s
    → count ≤ℤ s.count
    → IsInt s.count
    → IsInt (s.count -ℤ count)
    → (t' : Tree) × (buy t id count ≡ go_on t' (bought ∷ []))
      × (sell t' id count ≡ go_on t (sold ∷ []))
unfolding buy sell
buy-sell t id count s found enough range range' =
    let left = s.count -ℤ count in
    let now : find_node (set_count t id left) id ≡ some (record s { count = left }) =
      ground (arith, find_node-set_count t id left id) in
    let back : left +ℤ count ≡ s.count = omega (arith, +ℤ_parts, -ℤ_parts, eq_of_parts) in
    (
      set_count t id left,
      ground (arith, wrap_lem left range'),
      ground (
        arith,
        now,
        back,
        wrap_lem s.count range,
        set_count_twice t id left s.count,
        set_count_same t id s found,
      ),
    )

-- What a command leaves.
data Goes (scan : List ℕ → ℤ × ℤ) (line_size : Stock → ℕ) (t : Tree) (line : List ℕ) : Type 0 where
  same :
      (sent : List Reply)
      → command scan line_size t line ≡ go_on t sent
      → Goes scan line_size t line
  sets :
      (id n : ℤ) (sent : List Reply)
      → command scan line_size t line ≡ go_on (set_count t id n) sent
      → Goes scan line_size t line
  leaves :
      (sent : List Reply) → command scan line_size t line ≡ leave sent → Goes scan line_size t line

buy-Goes :
    (t : Tree) (id count : ℤ)
    → find_node t id ≢ none
    → ((sent : List Reply) × (buy t id count ≡ go_on t sent))
      ⊎ ((n : ℤ) × (sent : List Reply) × (buy t id count ≡ go_on (set_count t id n) sent))
unfolding buy
buy-Goes t id count known = go (find_node t id) refl
  where
    go :
        (o : Option Stock)
        → find_node t id ≡ o
        → ((sent : List Reply) × (buy t id count ≡ go_on t sent))
          ⊎ ((n : ℤ) × (sent : List Reply) × (buy t id count ≡ go_on (set_count t id n) sent))
    go none e = absurd (known e)
    go (some s) e = elim (Bool-cases (leb_ℤ count s.count)) [
      | inl b ↦ inr (wrap (s.count -ℤ count), bought ∷ [], ground arith)
      | inr b ↦ inl (not_enough ∷ [], ground arith)
    ]

sell-Goes :
    (t : Tree) (id count : ℤ)
    → find_node t id ≢ none
    → (n : ℤ) × (sent : List Reply) × (sell t id count ≡ go_on (set_count t id n) sent)
unfolding sell
sell-Goes t id count known = go (find_node t id) refl
  where
    go :
        (o : Option Stock)
        → find_node t id ≡ o
        → (n : ℤ) × (sent : List Reply) × (sell t id count ≡ go_on (set_count t id n) sent)
    go none e = absurd (known e)
    go (some s) e = (wrap (s.count +ℤ count), sold ∷ [], ground arith)

-- Whether the line is read as an order.
abbrev pub is_order : List ℕ → Bool
is_order line =
    not (bytes_eq line show_line)
    && not (bytes_eq line exit_line)
    && (first_byte line == b'b' || first_byte line == b's')

-- What the server's arrays have room for: no more stocks than `buf` can show, and a word of less than
-- ten bytes.
abbrev pub HasRoom : Tree → Type 0
HasRoom t = 36 * stocks t < maxline

module _ (scan : List ℕ → ℤ × ℤ) where
  -- If the line is an order, its word fits `temp` and it is for a stock of the tree.
  abbrev pub IsKnown : Tree → List ℕ → Type 0
  IsKnown t line = is_order line ≡ true → (word_size line < 10) × (find_node t (scan line).0 ≢ none)

  command-Goes :
      (line_size : Stock → ℕ) (t : Tree) (line : List ℕ)
      → ((s : Stock) → line_size s ≤ 36)
      → HasRoom t
      → IsKnown t line
      → Goes scan line_size t line
  unfolding command
  command-Goes line_size t line short room known = elim (Bool-cases (bytes_eq line show_line)) [
    | inl e ↦
        let text = text_size-show_tree line_size t [] short in
        let fits : ltb (text_size line_size (show_tree t [])) maxline ≡ true =
          ground (arith, text, room) in
        same (shown (show_tree t []) ∷ []) (rw (e, fits))
    | inr e ↦ elim (Bool-cases (bytes_eq line exit_line)) [
      | inl x ↦ leaves (exited ∷ []) (rw (e, x))
      | inr x ↦ elim (Bool-cases (first_byte line == b'b')) [
        | inl b ↦
            let (word, there) = known (ground arith) in
            let fits : ltb (word_size line) 10 ≡ true = ground (arith, word) in
            elim (buy-Goes t (scan line).0 (scan line).1 there) [
              | inl (sent, h) ↦ same sent (rw (e, x, b, fits) h)
              | inr (n, sent, h) ↦ sets (scan line).0 n sent (rw (e, x, b, fits) h)
            ]
        | inr b ↦ elim (Bool-cases (first_byte line == b's')) [
          | inl c ↦
              let (word, there) = known (ground arith) in
              let fits : ltb (word_size line) 10 ≡ true = ground (arith, word) in
              let (n, sent, h) = sell-Goes t (scan line).0 (scan line).1 there in
              sets (scan line).0 n sent (rw (e, x, b, c, fits) h)
          | inr c ↦ same [] (rw (e, x, b, c))
        ]
      ]
    ]
  ]

  set_count-IsKnown :
      (t : Tree) (id n : ℤ) (lines : List (List ℕ))
      → All (IsKnown t) lines
      → All (IsKnown (set_count t id n)) lines
  set_count-IsKnown t id n [] h = tt
  set_count-IsKnown t id n (line ∷ lines) h =
      (λ order. ((h.0 order).0, keeps (h.0 order).1), set_count-IsKnown t id n lines h.1)
    where
      keeps : find_node t (scan line).0 ≢ none → find_node (set_count t id n) (scan line).0 ≢ none
      keeps known = still (find_node t (scan line).0) refl
        where
          still :
              (o : Option Stock)
              → find_node t (scan line).0 ≡ o
              → find_node (set_count t id n) (scan line).0 ≢ none
          still none e = absurd (known e)
          still (some s) e = ground (arith, find_node-set_count t id n (scan line).0)

  -- A client's loop ends, with a search tree.
  client_loop-IsSearch :
      (line_size : Stock → ℕ) (t : Tree) (lines : List (List ℕ))
      → ((s : Stock) → line_size s ≤ 36)
      → HasRoom t
      → IsSearch t
      → All (IsKnown t) lines
      → (t' : Tree) × (sent : List Reply) × (client_loop scan line_size t lines ≡ some (t', sent))
        × IsSearch t'
  unfolding client_loop
  client_loop-IsSearch line_size t [] short room search known = (t, [], refl, search)
  client_loop-IsSearch line_size t (line ∷ lines) short room search known =
      elim (command-Goes line_size t line short room known.0) [
        | same sent e ↦
            let (t', later, run, search') =
              client_loop-IsSearch line_size t lines short room search known.1 in
            (t', sent ++ later, ground arith, search')
        | sets id n sent e ↦
            let t1 = set_count t id n in
            let (t', later, run, search') =
              client_loop-IsSearch line_size t1 lines short
                (let same = stocks-set_count t id n in omega (arith, same, room))
                (set_count-IsSearch t id n search) (set_count-IsKnown t id n lines known.1) in
            (t', sent ++ later, ground arith, search')
        | leaves sent e ↦ (t, sent, ground arith, search)
      ]

-- A client whose orders are all for stocks of the server, with a word of less than ten bytes, on a
-- server with no other client and with no more stocks than `buf` has room for at 36 bytes each, is
-- served to its end; the tree is then still a search tree, and a server started from the file that was
-- written finds the same stocks and writes the same file. sprintf makes at most 36 bytes of three ints.
pub stock_server-restart :
    (scan : List ℕ → ℤ × ℤ) (line_size : Stock → ℕ) (s : Server) (lines : List (List ℕ)) (id : ℤ)
    → ((s : Stock) → line_size s ≤ 36)
    → HasRoom s.root
    → s.client_cnt ≡ 0
    → IsSearch s.root
    → All (IsKnown scan s.root) lines
    → (s' : Server) × (sent : List Reply) × (stock_server scan line_size s lines ≡ some (s', sent))
      × (s'.client_cnt ≡ 0)
      × IsSearch s'.root
      × (find_node (read_stock null s'.file) id ≡ find_node s'.root id)
      × (write_stock (read_stock null s'.file) ≡ s'.file)
unfolding stock_server
stock_server-restart scan line_size s lines id short room alone search known =
    let (root, sent, run, search') =
      client_loop-IsSearch scan line_size s.root lines short room search known in
    let s' = depart (record (enter s) { root = root }) in
    let written : s'.file ≡ write_stock root = ground arith in
    let again = restart_same root id search' in
    (s', sent, ground arith, ground arith, search', rw written again.0, rw written again.1)
