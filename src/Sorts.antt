-- ===== src/Sorts.antt =====
-- The four sorts of 2022_2nd/CSE3081/Project_02.c. An array of `int` is a list of ℤ, and an end of
-- the code's, `right`, is the `stop` behind it, `right + 1`: the code's `pivot - 1` and `N - 1` can be
-- -1.
pub mod Rearranged
pub mod Insertion
pub mod Quick
pub mod Merge
pub mod MergeSort
pub mod Main
pub mod Custom
mod Tests
use package.sogang_university.Shared.{
  ℕ, zero, suc, ◌+◌, ◌-◌, ◌/◌, Bool, true, false, ◌==◌, ◌&&◌, ltb, leb, if◌then◌else◌, List, [],
  ◌∷◌, get_or, set, length,
}
use package.sogang_university.Shared.Int.{ℤ, pos, ltb_ℤ}

-- list[i]
abbrev pub item : List ℤ → ℕ → ℤ
item xs i = get_or xs i (pos 0)

-- SWAP(list[i], list[j])
abbrev pub swap : List ℤ → ℕ → ℕ → List ℤ
swap xs i j = set (set xs i (item xs j)) j (item xs i)

-- The loop of `partition` from `i`, with the rounds left: the list and `pivot`.
pub partition_loop : ℕ → ℕ → ℕ → ℕ → List ℤ → List ℤ × ℕ
partition_loop zero right i pivot xs = (xs, pivot)
partition_loop (suc left) right i pivot xs =
    let smaller = partition_loop left right (i + 1) (pivot + 1) (swap xs i pivot) in
    let other = partition_loop left right (i + 1) pivot xs in
    if ltb_ℤ (item xs i) (item xs right) then smaller else other

unfoldable pub partition : List ℤ → ℕ → ℕ → List ℤ × ℕ
unfolding partition_loop
partition xs left stop =
    let right = stop - 1 in
    let (ys, pivot) = partition_loop (right - left) right left left xs in
    (swap ys right pivot, pivot)

-- The calls are as deep as the range is long, at most; `fuel` bounds their depth.
unfoldable pub quick_sort : ℕ → List ℤ → ℕ → ℕ → List ℤ
unfolding partition
quick_sort zero xs left stop = xs
quick_sort (suc fuel) xs left stop =
    let (ys, pivot) = partition xs left stop in
    let sorted = quick_sort fuel (quick_sort fuel ys left pivot) (pivot + 1) stop in
    if ltb (left + 1) stop then sorted else xs

-- list[from], … of so many items.
abbrev pub segment : List ℤ → ℕ → ℕ → List ℤ
segment xs from zero = []
segment xs from (suc n) = item xs from ∷ segment xs (from + 1) n

-- What `merge` writes to `list2` from its position `left` on: the loop on `a` and `b`, then the rest
-- of the one range that is left. Each round writes one item, and the rounds left are counted.
pub merge_loop : ℕ → List ℤ → ℕ → ℕ → ℕ → ℕ → List ℤ
merge_loop zero xs a mid b stop = []
merge_loop (suc n) xs a mid b stop =
    let first = item xs a ∷ merge_loop n xs (a + 1) mid b stop in
    let second = item xs b ∷ merge_loop n xs a mid (b + 1) stop in
    let rest = if leb mid a then segment xs b (stop - b) else segment xs a (mid - a) in
    if ltb a mid && ltb b stop
    then if ltb_ℤ (item xs a) (item xs b) then first else second
    else rest

-- The loop that copies `list2` back.
pub copy_back : List ℤ → ℕ → List ℤ → List ℤ
copy_back xs i [] = xs
copy_back xs i (v ∷ out) = copy_back (set xs i v) (i + 1) out

-- `mid` is the code's `mid + 1`.
unfoldable pub merge : List ℤ → ℕ → ℕ → ℕ → List ℤ
unfolding merge_loop copy_back
merge xs left mid stop = copy_back xs left (merge_loop (stop - left) xs left mid mid stop)

unfoldable pub merge_sort : ℕ → List ℤ → ℕ → ℕ → List ℤ
unfolding merge
merge_sort zero xs left stop = xs
merge_sort (suc fuel) xs left stop =
    let mid = (left + (stop - 1)) / 2 + 1 in
    let sorted = merge (merge_sort fuel (merge_sort fuel xs left mid) mid stop) left mid stop in
    if ltb (left + 1) stop then sorted else xs

-- The inner loop of `insertion_sort` and the write behind it, where `b + 1` is the first argument.
pub insert_down : ℕ → List ℤ → ℤ → List ℤ
insert_down zero xs c = set xs 0 c
insert_down (suc b) xs c =
    let lower = insert_down b (set xs (suc b) (item xs b)) c in
    if ltb_ℤ c (item xs b) then lower else set xs (suc b) c

pub insertion_loop : ℕ → ℕ → List ℤ → List ℤ
unfolding insert_down
insertion_loop zero a xs = xs
insertion_loop (suc left) a xs = insertion_loop left (a + 1) (insert_down a xs (item xs a))

unfoldable pub insertion_sort : List ℤ → ℕ → ℕ → List ℤ
unfolding insertion_loop
insertion_sort xs left stop = insertion_loop (stop - left) left xs

-- The last branch of the code repeats the test before it, so its `return (middle)` is never reached.
pub middle : List ℤ → ℕ → ℕ → ℕ
middle xs left right =
    let mid = (left + right) / 2 in
    if ltb_ℤ (item xs right) (item xs left)
    then if ltb_ℤ (item xs left) (item xs mid)
      then left
      else if ltb_ℤ (item xs right) (item xs mid)
      then mid
      else right
    else if ltb_ℤ (item xs right) (item xs mid)
    then right
    else if ltb_ℤ (item xs right) (item xs mid)
    then mid
    else left

pub custom_partition : List ℤ → ℕ → ℕ → List ℤ × ℕ
unfolding middle partition
custom_partition xs left stop =
    let right = stop - 1 in partition (swap xs (middle xs left right) right) left stop

unfoldable pub custom_sort : ℕ → List ℤ → ℕ → ℕ → List ℤ
unfolding custom_partition insertion_sort
custom_sort zero xs left stop = xs
custom_sort (suc fuel) xs left stop =
    let (ys, pivot) = custom_partition xs left stop in
    let parts = custom_sort fuel (custom_sort fuel ys left pivot) (pivot + 1) stop in
    if ltb (left + 1) stop
    then if ltb (stop - 1 - left) 10 then insertion_sort xs left stop else parts
    else xs

-- The branch of `main` that sorts; any other index leaves the list as it is.
unfoldable pub sort_by : ℕ → List ℤ → List ℤ
unfolding insertion_sort quick_sort merge_sort custom_sort
sort_by index xs =
    let n = length xs in
    if index == 1
    then insertion_sort xs 0 n
    else if index == 2
    then quick_sort n xs 0 n
    else if index == 3
    then merge_sort n xs 0 n
    else if index == 4
    then custom_sort n xs 0 n
    else xs
