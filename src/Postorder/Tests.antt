-- ===== src/Postorder/Tests.antt =====
-- The tree of 20 with 10 and 30, and 25 under 30.
use sogang_university.Shared.{ℕ, ◌≡◌, refl, arith, [], ◌∷◌}
use sogang_university.Shared.Int.{pos}
use sogang_university.Postorder.{
  Tree, leaf, node, preorder, modifiedsearch, attach, insert, postorder_tree, build,
}
use sogang_university.Postorder.Rebuild.{postorder, levelled, build-postorder}

abbrev single : ℕ → Tree
single n = node leaf (pos n) 0 leaf

abbrev tree : Tree
tree = node (single 10) (pos 20) 0 (node (single 25) (pos 30) 0 leaf)

build_tree :
    preorder (build (pos 10 ∷ pos 25 ∷ pos 30 ∷ pos 20 ∷ [])).0
    ≡ (pos 20, 1) ∷ (pos 10, 2) ∷ (pos 30, 2) ∷ (pos 25, 3) ∷ []
unfolding build postorder_tree insert modifiedsearch attach
build_tree = refl

build-postorder_example : build (postorder tree) ≡ (levelled 1 tree, 1)
build-postorder_example = build-postorder tree (
  (omega arith, tt),
  (omega arith, (omega arith, tt)),
  (tt, tt, tt, tt),
  ((omega arith, tt), tt, (tt, tt, tt, tt), tt),
)
