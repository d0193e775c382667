-- ===== src/Searching/Tests.antt =====
-- The tree of 3, 1, 2, 3.
use sogang_university.Shared.{◌≡◌, refl, List, [], ◌∷◌}
use sogang_university.Shared.Int.{ℤ, pos}
use sogang_university.Searching.{
  leaf, inorder, preorder, modifiedsearch, attach, insert, insert_all,
}
use sogang_university.Searching.Inorder.{Ascends, In, insert_all-sorts}

abbrev numbers : List ℤ
numbers = pos 3 ∷ pos 1 ∷ pos 2 ∷ pos 3 ∷ []

inorder_run : inorder (insert_all leaf numbers) ≡ pos 1 ∷ pos 2 ∷ pos 3 ∷ []
unfolding insert_all insert modifiedsearch attach
inorder_run = refl

preorder_run : preorder (insert_all leaf numbers) ≡ pos 3 ∷ pos 1 ∷ pos 2 ∷ []
unfolding insert_all insert modifiedsearch attach
preorder_run = refl

insert_all-sorts_example :
    Ascends (inorder (insert_all leaf numbers))
    × ((z : ℤ) → In z (inorder (insert_all leaf numbers)) → In z numbers)
    × ((z : ℤ) → In z numbers → In z (inorder (insert_all leaf numbers)))
insert_all-sorts_example = insert_all-sorts numbers
