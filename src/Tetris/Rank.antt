-- ===== src/Tetris/Rank.antt =====
-- The ranking of 2023_1st/CSE3013/Week_10/Assignment/tetris.c: `rank` and `newRank` on the linked
-- list behind `first`. The list is the nodes after the dummy node in order; what is drawn and typed
-- are values. The file rank.txt is left out.
pub mod Laws
use package.sogang_university.Shared.{
  bytes_eq, ℕ, zero, suc, ◌+◌, ◌-◌, Bool, true, false, ◌&&◌, ◌||◌, ltb, leb, ◌==◌,
}
use package.sogang_university.Shared.{if◌then◌else◌, Option, none, some, List, [], ◌∷◌}
use package.sogang_university.Shared.Int.{ℤ, pos, negsuc, pos_part, ltb_ℤ, leb_ℤ}

pub record Entry : Type 0 where
  pub name : List ℕ
  pub score : ℤ

-- The list behind `first`, and `num`.
pub record Ranking : Type 0 where
  pub entries : List Entry
  pub num : ℕ

-- The loop of `newRank` from the node `temp`, and the link that it then sets.
pub insert_after : Entry → List Entry → List Entry
insert_after cur [] = cur ∷ []
insert_after cur (temp ∷ []) =
    if leb_ℤ cur.score temp.score then temp ∷ cur ∷ [] else cur ∷ temp ∷ []
insert_after cur (temp ∷ next ∷ rest) =
    let later = insert_after cur (next ∷ rest) in
    if leb_ℤ cur.score temp.score then temp ∷ later else cur ∷ temp ∷ next ∷ rest

-- The three cases of `newRank`.
pub insert_entry : Entry → List Entry → List Entry
unfolding insert_after
insert_entry cur [] = cur ∷ []
insert_entry cur (first ∷ rest) =
    if ltb_ℤ first.score cur.score then cur ∷ first ∷ rest else insert_after cur (first ∷ rest)

pub new_rank : List ℕ → ℤ → Ranking → Ranking
unfolding insert_entry
new_rank name score r = record {
  entries = insert_entry (record { name = name; score = score }) r.entries;
  num = r.num + 1;
}

-- `X` or `Y` as `rank` clamps it.
pub clamp_rank : ℕ → ℤ → ℤ
clamp_rank num z = if ltb_ℤ z (pos 1) then pos 1 else if ltb_ℤ (pos num) z then pos num else z

-- for (i = 1; i <= Y; i++), with `left` rounds to go: the entries printed.
pub list_loop : ℤ → ℕ → ℕ → List Entry → List Entry
list_loop x i zero cur = []
list_loop x i (suc left) [] = []
list_loop x i (suc left) (e ∷ cur) =
    let rest = list_loop x (i + 1) left cur in if leb_ℤ x (pos i) then e ∷ rest else rest

-- Menu item 1: `none` is "no rank in the list".
unfoldable pub list_ranks : ℤ → ℤ → Ranking → Option (List Entry)
unfolding list_loop clamp_rank
list_ranks x y r =
    let first = clamp_rank r.num x in
    let last = clamp_rank r.num y in
    if ltb_ℤ last first then none else some (list_loop first 1 (pos_part last) r.entries)

-- Menu item 2, over `num` nodes: the entries printed.
pub find_name : List ℕ → ℕ → List Entry → List Entry
find_name name zero cur = []
find_name name (suc n) [] = []
find_name name (suc n) (e ∷ cur) =
    let rest = find_name name n cur in if bytes_eq name e.name then e ∷ rest else rest

-- Follow `del` links and take the node there out.
pub unlink : ℕ → List Entry → List Entry
unlink del [] = []
unlink zero (e ∷ cur) = e ∷ cur
unlink (suc zero) (e ∷ cur) = cur
unlink (suc (suc n)) (e ∷ cur) = e ∷ unlink (suc n) cur

-- Menu item 3: false is "the rank not in the list".
pub delete_rank : ℤ → Ranking → Bool × Ranking
unfolding unlink
delete_rank del r =
    if ltb_ℤ del (pos 1) || ltb_ℤ (pos r.num) del
    then (false, r)
    else (true, record { entries = unlink (pos_part del) r.entries; num = r.num - 1 })
