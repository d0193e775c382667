-- ===== src/Postorder/Rebuild.antt =====
-- The tree that is built from the postorder of a search tree.
use sogang_university.Shared.{
  ℕ, zero, suc, ◌+◌, ◌<◌, ◌≡◌, refl, sym, ap, ◌∙◌, arith, List, [], ◌∷◌, ◌++◌, length,
  length-append, append_assoc, All,
}
use sogang_university.Shared.Int.{ℤ, ◌<ℤ◌}
use sogang_university.Postorder.{
  Tree, leaf, node, insert, last_of, before_last, greater, others, postorder_tree, build,
}
use sogang_university.Postorder.Insert.{insert-left, insert-right}
use sogang_university.Postorder.Parts.{
  All-last, All-before, All-greater, All-others, last_of-snoc, before_last-snoc, greater-append,
  others-append,
}

abbrev pub postorder : Tree → List ℤ
postorder leaf = []
postorder (node l d level r) = postorder l ++ (postorder r ++ (d ∷ []))

abbrev pub IsSearch : Tree → Type 0
IsSearch leaf = Unit
IsSearch (node l d level r) =
    All (λ x. x <ℤ d) (postorder l) × All (λ x. d <ℤ x) (postorder r) × IsSearch l × IsSearch r

-- The tree with the levels that its nodes have, from that of the root on.
abbrev pub levelled : ℕ → Tree → Tree
levelled level leaf = leaf
levelled level (node l d v r) = node (levelled (level + 1) l) d level (levelled (level + 1) r)

-- The nodes with one child, and 1 for a tree without nodes.
abbrev pub only_children : Tree → ℕ
only_children leaf = 1
only_children (node leaf d v leaf) = 0
only_children (node leaf d v (node l' d' v' r')) = 1 + only_children (node l' d' v' r')
only_children (node (node l' d' v' r') d v r) = only_children (node l' d' v' r') + only_children r

-- Items greater than the root go to its right, others to its left.
abbrev on_right : Tree → ℤ → ℕ → Tree × ℕ → Tree × ℕ
on_right l d v s = (node l d v s.0, s.1)

abbrev on_left : Tree → ℤ → ℕ → Tree × ℕ → Tree × ℕ
on_left r d v s = (node s.0 d v r, s.1)

module _ (place : Tree × ℕ → Tree × ℕ) (P : ℤ → Type 0)
    (goes : (x : ℤ) (level : ℕ) (s : Tree × ℕ)
      → P x
      → (insert (place s).0 x level, (place s).1) ≡ place (insert s.0 x level, s.1))
    (counts : (s : Tree × ℕ) → ((place s).0, (place s).1 + 1) ≡ place (s.0, s.1 + 1)) where
  postorder_tree-place :
      (fuel : ℕ) (items : List ℤ) (level : ℕ) (s : Tree × ℕ)
      → All P items
      → postorder_tree fuel items level (place s) ≡ place (postorder_tree fuel items level s)
  unfolding postorder_tree
  postorder_tree-place zero items level s h = refl
  postorder_tree-place (suc fuel) [] level s h = counts s
  postorder_tree-place (suc fuel) (a ∷ []) level s h = goes a level s h.0
  postorder_tree-place (suc fuel) (a ∷ b ∷ rest) level s h =
      let root = last_of b rest in
      let items = a ∷ before_last b rest in
      let all : All P items = (h.0, All-before P b rest h.1) in
      let rooted : Tree × ℕ = (insert s.0 root level, s.1) in
      ap
        (λ z.
          postorder_tree fuel (others root items) (level + 1)
            (postorder_tree fuel (greater root items) (level + 1) z))
        (goes root level s (All-last P b rest h.1))
      ∙ ap (postorder_tree fuel (others root items) (level + 1)) (
          postorder_tree-place fuel (greater root items) (level + 1) rooted
            (All-greater P root items all))
      ∙ postorder_tree-place fuel (others root items) (level + 1)
          (postorder_tree fuel (greater root items) (level + 1) rooted)
          (All-others P root items all)

postorder_tree-right :
    (l : Tree) (d : ℤ) (v fuel : ℕ) (items : List ℤ) (level : ℕ) (s : Tree × ℕ)
    → All (λ x. d <ℤ x) items
    → postorder_tree fuel items level (on_right l d v s)
      ≡ on_right l d v (postorder_tree fuel items level s)
postorder_tree-right l d v fuel items level s h =
    postorder_tree-place (on_right l d v) (λ x. d <ℤ x)
      (λ x level s h. ap (λ z. (z, s.1)) (insert-right l d v s.0 x level h)) (λ s. refl) fuel items
      level s h

postorder_tree-left :
    (r : Tree) (d : ℤ) (v fuel : ℕ) (items : List ℤ) (level : ℕ) (s : Tree × ℕ)
    → All (λ x. x <ℤ d) items
    → postorder_tree fuel items level (on_left r d v s)
      ≡ on_left r d v (postorder_tree fuel items level s)
postorder_tree-left r d v fuel items level s h =
    postorder_tree-place (on_left r d v) (λ x. x <ℤ d)
      (λ x level s h. ap (λ z. (z, s.1)) (insert-left s.0 d v r x level h)) (λ s. refl) fuel items
      level s h

-- A call with a root `d` and other items.
abbrev called : ℕ → List ℤ → ℤ → ℕ → Tree × ℕ → Tree × ℕ
called fuel items d level s =
    postorder_tree fuel (others d items) (level + 1)
      (postorder_tree fuel (greater d items) (level + 1) (insert s.0 d level, s.1))

postorder_tree-snoc :
    (fuel : ℕ) (a : ℤ) (items : List ℤ) (d : ℤ) (level : ℕ) (s : Tree × ℕ)
    → postorder_tree (suc fuel) (a ∷ (items ++ (d ∷ []))) level s
      ≡ called fuel (a ∷ items) d level s
unfolding postorder_tree
postorder_tree-snoc fuel a [] d level s = refl
postorder_tree-snoc fuel a (b ∷ items) d level s =
    ap (λ z. called fuel (a ∷ z) (last_of b (items ++ (d ∷ []))) level s)
      (before_last-snoc b items d)
    ∙ ap (λ z. called fuel (a ∷ b ∷ items) z level s) (last_of-snoc b items d)

postorder_tree-called :
    (fuel : ℕ) (items : List ℤ) (d : ℤ) (level : ℕ) (s : Tree × ℕ)
    → 0 < length items
    → postorder_tree (suc fuel) (items ++ (d ∷ [])) level s ≡ called fuel items d level s
postorder_tree-called fuel [] d level s h = absurd (omega (arith, h))
postorder_tree-called fuel (a ∷ items) d level s h = postorder_tree-snoc fuel a items d level s

-- One node whose parts are built right.
built_node :
    (fuel : ℕ) (l : Tree) (d : ℤ) (v : ℕ) (r : Tree) (level e : ℕ)
    → IsSearch (node l d v r)
    → ((e' : ℕ)
        → postorder_tree fuel (postorder l) (level + 1) (leaf, e')
          ≡ (levelled (level + 1) l, e' + only_children l))
    → ((e' : ℕ)
        → postorder_tree fuel (postorder r) (level + 1) (leaf, e')
          ≡ (levelled (level + 1) r, e' + only_children r))
    → called fuel (postorder l ++ postorder r) d level (leaf, e)
      ≡ (levelled level (node l d v r), e + only_children r + only_children l)
unfolding insert
built_node fuel l d v r level e (small, large, sl, sr) left_built right_built =
    ap
      (λ z.
        postorder_tree fuel (others d (postorder l ++ postorder r)) (level + 1)
          (postorder_tree fuel z (level + 1) (node leaf d level leaf, e)))
      (greater-append d (postorder l) (postorder r) small large)
    ∙ ap
        (λ z.
          postorder_tree fuel z (level + 1)
            (postorder_tree fuel (postorder r) (level + 1) (node leaf d level leaf, e)))
        (others-append d (postorder l) (postorder r) small large)
    ∙ ap (postorder_tree fuel (postorder l) (level + 1)) (
        postorder_tree-right leaf d level fuel (postorder r) (level + 1) (leaf, e) large
        ∙ ap (on_right leaf d level) (right_built e))
    ∙ postorder_tree-left (levelled (level + 1) r) d level fuel (postorder l) (level + 1)
        (leaf, e + only_children r) small
    ∙ ap (on_left (levelled (level + 1) r) d level) (left_built (e + only_children r))

length-node :
    (l : Tree) (d : ℤ) (v : ℕ) (r : Tree)
    → length (postorder (node l d v r)) ≡ length (postorder l) + length (postorder r) + 1
length-node l d v r =
    let a = length-append (postorder l) (postorder r ++ (d ∷ [])) in
    let b = length-append (postorder r) (d ∷ []) in omega (arith, a, b)

-- The tree `t` is built right with this fuel and at this level.
abbrev Built : ℕ → Tree → ℕ → Type 0
Built fuel t level =
    (e : ℕ)
    → postorder_tree fuel (postorder t) level (leaf, e) ≡ (levelled level t, e + only_children t)

-- An inner node of which one child at least is there.
Built-inner :
    (fuel : ℕ) (l : Tree) (d : ℤ) (v : ℕ) (r : Tree) (level e : ℕ)
    → IsSearch (node l d v r)
    → 0 < length (postorder l ++ postorder r)
    → Built fuel l (level + 1)
    → Built fuel r (level + 1)
    → postorder_tree (suc fuel) (postorder (node l d v r)) level (leaf, e)
      ≡ (levelled level (node l d v r), e + only_children r + only_children l)
Built-inner fuel l d v r level e k n left_built right_built =
    ap (λ z. postorder_tree (suc fuel) z level (leaf, e))
      (sym (append_assoc (postorder l) (postorder r) (d ∷ [])))
    ∙ postorder_tree-called fuel (postorder l ++ postorder r) d level (leaf, e) n
    ∙ built_node fuel l d v r level e k left_built right_built

built :
    (fuel : ℕ) (t : Tree) (level : ℕ)
    → IsSearch t
    → length (postorder t) < fuel
    → Built fuel t level
unfolding postorder_tree insert
built zero t level k m e = absurd (omega (arith, m))
built (suc fuel) leaf level k m e = refl
built (suc fuel) (node leaf d v leaf) level k m e =
    let at : e ≡ e + 0 = omega arith in ap (λ z. (node leaf d level leaf, z)) at
built (suc fuel) (node leaf d v (node l' d' v' r')) level k m e =
    let r = node l' d' v' r' in
    let size = length-node l' d' v' r' in
    let all = length-node leaf d v r in
    let at : e + only_children r + 1 ≡ e + (1 + only_children r) = omega arith in
    Built-inner fuel leaf d v r level e k (omega (arith, size))
      (built fuel leaf (level + 1) k.2 (omega (arith, m, all, size)))
      (built fuel r (level + 1) k.3 (omega (arith, m, all)))
    ∙ ap (λ z. (levelled level (node leaf d v r), z)) at
built (suc fuel) (node (node l' d' v' r') d v r) level k m e =
    let l = node l' d' v' r' in
    let size = length-node l' d' v' r' in
    let all = length-node l d v r in
    let both = length-append (postorder l) (postorder r) in
    let at : e + only_children r + only_children l ≡ e + (only_children l + only_children r) =
      omega arith in
    Built-inner fuel l d v r level e k (omega (arith, size, both))
      (built fuel l (level + 1) k.2 (omega (arith, m, all)))
      (built fuel r (level + 1) k.3 (omega (arith, m, all, size)))
    ∙ ap (λ z. (levelled level (node l d v r), z)) at

-- From the postorder of a search tree `build` makes that tree again, each node with its level, the
-- root's being 1, and prints "Error!" once for each node that has one child.
pub build-postorder :
    (t : Tree) → IsSearch t → build (postorder t) ≡ (levelled 1 t, only_children t)
unfolding build
build-postorder t k =
    let at : 0 + only_children t ≡ only_children t = omega arith in
    built (length (postorder t) + 1) t 1 k (omega arith) 0 ∙ ap (λ z. (levelled 1 t, z)) at
