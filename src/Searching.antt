-- ===== src/Searching.antt =====
-- The search tree of 2022_2nd/CSE3080/Assignment/Assignment_05.c. A `pointer` into the tree is the way
-- from its root to the node.
pub mod Insert
pub mod Inorder
mod Tests
use package.sogang_university.Shared.{
  ◌+◌, Bool, true, false, if◌then◌else◌, Option, none, some, List, [], ◌∷◌, ◌++◌,
}
use package.sogang_university.Shared.Int.{ℤ, ltb_ℤ}

pub data Tree : Type 0 where
  leaf : Tree
  node : Tree → ℤ → Tree → Tree

pub data Child : Type 0 where
  left right : Child

-- What `inorder` and `preorder` print.
abbrev pub inorder : Tree → List ℤ
inorder leaf = []
inorder (node l d r) = inorder l ++ (d ∷ inorder r)

abbrev pub preorder : Tree → List ℤ
preorder leaf = []
preorder (node l d r) = d ∷ (preorder l ++ preorder r)

-- The way on from a node, or to it if there is nothing there.
abbrev pub onward : Child → Tree → Option (List Child) → Option (List Child)
onward side leaf way = some []
onward side (node l d r) none = none
onward side (node l d r) (some way) = some (side ∷ way)

-- `modifiedsearch`: the last node on the way to `data`, or NULL if `data` is there or nothing is.
pub modifiedsearch : Tree → ℤ → Option (List Child)
modifiedsearch leaf data' = none
modifiedsearch (node l d r) data' =
    let in_left = onward left l (modifiedsearch l data') in
    let in_right = onward right r (modifiedsearch r data') in
    if ltb_ℤ data' d then in_left else if ltb_ℤ d data' then in_right else none

-- temp->left = ptr or temp->right = ptr, for the node `temp` at the end of the way.
pub attach : List Child → Tree → ℤ → Tree
attach way leaf data' = leaf
attach [] (node l d r) data' =
    if ltb_ℤ data' d then node (node leaf data' leaf) d r else node l d (node leaf data' leaf)
attach (left ∷ way) (node l d r) data' = node (attach way l data') d r
attach (right ∷ way) (node l d r) data' = node l d (attach way r data')

pub insert : Tree → ℤ → Tree
unfolding modifiedsearch attach
insert leaf data' = node leaf data' leaf
insert (node l d r) data' =
    let tree = node l d r in
    elim (modifiedsearch tree data') [ none ↦ tree | some way ↦ attach way tree data' ]

-- The loop of `main` over the numbers.
pub insert_all : Tree → List ℤ → Tree
unfolding insert
insert_all tree [] = tree
insert_all tree (a ∷ items) = insert_all (insert tree a) items
