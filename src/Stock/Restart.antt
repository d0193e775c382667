-- ===== src/Stock/Restart.antt =====
-- stock.txt: what the server writes at the end of a run it reads at the start of the next.
use sogang_university.Shared.{◌≡◌, refl, sym, ◌∙◌, ap, arith, false}
use sogang_university.Shared.{List, [], ◌∷◌, ◌++◌, All, All-append, append_assoc, append-nil}
use sogang_university.Shared.Int.{ℤ, ltb_ℤ, ◌≤ℤ◌, ◌<ℤ◌}
use sogang_university.Stock.{
  Stock, Tree, null, node, find_node, add_tree, show_tree, read_stock, write_stock,
}
use sogang_university.Stock.Order.{inorder, IsSearch, IsSorted, insert_stock, inorder-add_tree}
use sogang_university.Stock.Order.{add_tree-IsSearch, find_node-lookup, lookup}

show_tree-inorder : (t : Tree) (buf : List Stock) → show_tree t buf ≡ buf ++ inorder t
unfolding show_tree
show_tree-inorder null buf = sym (append-nil buf)
show_tree-inorder (node left s right) buf =
    show_tree-inorder right (show_tree left buf ++ (s ∷ []))
    ∙ ap (λ b. (b ++ (s ∷ [])) ++ inorder right) (show_tree-inorder left buf)
    ∙ append_assoc (buf ++ inorder left) (s ∷ []) (inorder right)
    ∙ append_assoc buf (inorder left) (s ∷ inorder right)

-- Each stock of a file put in its place.
abbrev pub insert_all : List Stock → List Stock → List Stock
insert_all l [] = l
insert_all l (s ∷ file) = insert_all (insert_stock s l) file

inorder-read_stock :
    (t : Tree) (file : List Stock)
    → IsSearch t
    → inorder (read_stock t file) ≡ insert_all (inorder t) file
unfolding read_stock
inorder-read_stock t [] h = refl
inorder-read_stock t (s ∷ file) h =
    inorder-read_stock (add_tree t s) file (add_tree-IsSearch t s h)
    ∙ ap (λ l. insert_all l file) (inorder-add_tree t s h)

read_stock-IsSearch : (t : Tree) (file : List Stock) → IsSearch t → IsSearch (read_stock t file)
unfolding read_stock
read_stock-IsSearch t [] h = h
read_stock-IsSearch t (s ∷ file) h =
    read_stock-IsSearch (add_tree t s) file (add_tree-IsSearch t s h)

insert-last :
    (s : Stock) (l r : List Stock) → IsSorted (l ++ (s ∷ r)) → insert_stock s l ≡ l ++ (s ∷ [])
insert-last s [] r h = refl
insert-last s (t ∷ l) r h =
    let le = middle l r h.0 in
    let late : ltb_ℤ s.id t.id ≡ false = ground arith in
    rw late (ap (λ k. t ∷ k) (insert-last s l r h.1))
  where
    middle : (l r : List Stock) → All (λ (u : Stock). t.id ≤ℤ u.id) (l ++ (s ∷ r)) → t.id ≤ℤ s.id
    middle [] r a = a.0
    middle (u ∷ l) r a = middle l r a.1

insert_all-IsSorted : (l file : List Stock) → IsSorted (l ++ file) → insert_all l file ≡ l ++ file
insert_all-IsSorted l [] h = sym (append-nil l)
insert_all-IsSorted l (s ∷ file) h =
    ap (λ k. insert_all k file) (insert-last s l file h)
    ∙ insert_all-IsSorted (l ++ (s ∷ [])) file (rw (append_assoc l (s ∷ []) file) h)
    ∙ append_assoc l (s ∷ []) file

IsSorted-join :
    (l : List Stock) (x : Stock) (r : List Stock)
    → All (λ (t : Stock). t.id <ℤ x.id) l
    → All (λ (t : Stock). x.id ≤ℤ t.id) r
    → IsSorted l
    → IsSorted r
    → IsSorted (l ++ (x ∷ r))
IsSorted-join [] x r a b hl hr = (b, hr)
IsSorted-join (t ∷ l) x r a b hl hr = (
  All-append (λ (u : Stock). t.id ≤ℤ u.id) l (x ∷ r) hl.0 (omega (arith, a.0), above r b),
  IsSorted-join l x r a.1 b hl.1 hr,
)
  where
    above :
        (r : List Stock) → All (λ (u : Stock). x.id ≤ℤ u.id) r → All (λ (u : Stock). t.id ≤ℤ u.id) r
    above [] c = tt
    above (u ∷ r) c = (omega (arith, a.0, c.0), above r c.1)

inorder-IsSorted : (t : Tree) → IsSearch t → IsSorted (inorder t)
inorder-IsSorted null h = tt
inorder-IsSorted (node left s right) h =
    IsSorted-join (inorder left) s (inorder right) h.0 h.1 (inorder-IsSorted left h.2)
      (inorder-IsSorted right h.3)

-- Whatever the file, `read_stock` builds a search tree, and what `write_stock` then writes has the
-- ids in order.
pub read_stock-IsSorted :
    (file : List Stock)
    → IsSearch (read_stock null file) × IsSorted (write_stock (read_stock null file))
unfolding write_stock
read_stock-IsSorted file =
    let search = read_stock-IsSearch null file tt in
    (
      search,
      rw (show_tree-inorder (read_stock null file) [])
          (inorder-IsSorted (read_stock null file) search),
    )

-- A server that starts from the file of a search tree has the same stocks in the same order: it
-- finds for every id what the old one found, and writes the same file.
pub restart_same :
    (t : Tree) (id : ℤ)
    → IsSearch t
    → (find_node (read_stock null (write_stock t)) id ≡ find_node t id)
      × (write_stock (read_stock null (write_stock t)) ≡ write_stock t)
unfolding write_stock
restart_same t id h = (find, write)
  where
    file : show_tree t [] ≡ inorder t
    file = show_tree-inorder t []

    t' : Tree
    t' = read_stock null (show_tree t [])

    same : inorder t' ≡ inorder t
    same =
        inorder-read_stock null (show_tree t []) tt
        ∙ ap (λ l. insert_all [] l) file
        ∙ insert_all-IsSorted [] (inorder t) (inorder-IsSorted t h)

    find : find_node t' id ≡ find_node t id
    find =
        find_node-lookup t' id (read_stock-IsSearch null (show_tree t []) tt)
        ∙ ap (lookup id) same
        ∙ sym (find_node-lookup t id h)

    write : show_tree t' [] ≡ show_tree t []
    write = show_tree-inorder t' [] ∙ same ∙ sym file
