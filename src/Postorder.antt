-- ===== src/Postorder.antt =====
-- The search tree that 2022_2nd/CSE3080/Project/Project_02.c builds from its postorder. A `pointer`
-- into the tree is the way from its root; an array is the list of its items.
pub mod Insert
pub mod Parts
pub mod Rebuild
mod Tests
use package.sogang_university.Shared.{
  ℕ, zero, suc, ◌+◌, Bool, true, false, if◌then◌else◌, Option, none, some, List, [], ◌∷◌, ◌++◌,
  length,
}
use package.sogang_university.Shared.Int.{ℤ, pos, ltb_ℤ}

pub data Tree : Type 0 where
  leaf : Tree
  node : Tree → ℤ → ℕ → Tree → Tree

pub data Side : Type 0 where
  left right : Side

-- What `preorder` prints: the items and their levels.
abbrev pub preorder : Tree → List (ℤ × ℕ)
preorder leaf = []
preorder (node l d level r) = (d, level) ∷ (preorder l ++ preorder r)

-- The way on from a node, or to it if there is nothing there.
abbrev pub onward : Side → Tree → Option (List Side) → Option (List Side)
onward side leaf way = some []
onward side (node l d level r) none = none
onward side (node l d level r) (some way) = some (side ∷ way)

-- `modifiedsearch`: the last node on the way to `data`, or NULL if `data` is there or nothing is.
pub modifiedsearch : Tree → ℤ → Option (List Side)
modifiedsearch leaf data' = none
modifiedsearch (node l d level r) data' =
    let in_left = onward left l (modifiedsearch l data') in
    let in_right = onward right r (modifiedsearch r data') in
    if ltb_ℤ data' d then in_left else if ltb_ℤ d data' then in_right else none

-- temp->left = ptr or temp->right = ptr, for the node `temp` at the end of the way.
pub attach : List Side → Tree → ℤ → ℕ → Tree
attach way leaf data' level = leaf
attach [] (node l d level' r) data' level =
    if ltb_ℤ data' d
    then node (node leaf data' level leaf) d level' r
    else node l d level' (node leaf data' level leaf)
attach (left ∷ way) (node l d level' r) data' level = node (attach way l data' level) d level' r
attach (right ∷ way) (node l d level' r) data' level = node l d level' (attach way r data' level)

pub insert : Tree → ℤ → ℕ → Tree
unfolding modifiedsearch attach
insert leaf data' level = node leaf data' level leaf
insert (node l d level' r) data' level =
    let tree = node l d level' r in
    elim (modifiedsearch tree data') [ none ↦ tree | some way ↦ attach way tree data' level ]

-- A[N - 1], for the list of the items from `a` on, and the items before it.
abbrev pub last_of : ℤ → List ℤ → ℤ
last_of a [] = a
last_of a (b ∷ rest) = last_of b rest

abbrev pub before_last : ℤ → List ℤ → List ℤ
before_last a [] = []
before_last a (b ∷ rest) = a ∷ before_last b rest

-- `rightarr` and `leftarr`.
abbrev pub greater : ℤ → List ℤ → List ℤ
greater root [] = []
greater root (a ∷ rest) = let more = greater root rest in if ltb_ℤ root a then a ∷ more else more

abbrev pub others : ℤ → List ℤ → List ℤ
others root [] = []
others root (a ∷ rest) = let more = others root rest in if ltb_ℤ root a then more else a ∷ more

-- `postorder_tree`, on the tree and on how often "Error!" has been printed. Out of fuel the model
-- stops; the arrays of the calls are shorter than the one that is cut.
pub postorder_tree : ℕ → List ℤ → ℕ → Tree × ℕ → Tree × ℕ
unfolding insert
postorder_tree zero items level s = s
postorder_tree (suc fuel) [] level s = (s.0, s.1 + 1)
postorder_tree (suc fuel) (a ∷ []) level s = (insert s.0 a level, s.1)
postorder_tree (suc fuel) (a ∷ b ∷ rest) level s =
    let root = last_of b rest in
    let items = a ∷ before_last b rest in
    let rooted : Tree × ℕ = (insert s.0 root level, s.1) in
    postorder_tree fuel (others root items) (level + 1)
      (postorder_tree fuel (greater root items) (level + 1) rooted)

-- The tree that `main` builds, and the errors.
pub build : List ℤ → Tree × ℕ
unfolding postorder_tree
build items = postorder_tree (length items + 1) items 1 (leaf, 0)
