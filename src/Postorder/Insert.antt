-- ===== src/Postorder/Insert.antt =====
-- `insert` goes down one side.
use sogang_university.Shared.{ℕ, ◌≡◌, refl, arith, true, false, Option, none, some, List}
use sogang_university.Shared.Int.{ℤ, ltb_ℤ, ◌<ℤ◌}
use sogang_university.Postorder.{
  Tree, leaf, node, Side, left, right, onward, modifiedsearch, attach, insert,
}

-- What `insert` does with the way that `modifiedsearch` found.
abbrev put : Tree → ℤ → ℕ → Option (List Side) → Tree
put t x level none = t
put t x level (some way) = attach way t x level

pub insert-right :
    (l : Tree) (d : ℤ) (v : ℕ) (r : Tree) (x : ℤ) (level : ℕ)
    → d <ℤ x
    → insert (node l d v r) x level ≡ node l d v (insert r x level)
unfolding insert modifiedsearch attach
insert-right l d v leaf x level h =
    let no : ltb_ℤ x d ≡ false = ground (arith, h) in
    let yes : ltb_ℤ d x ≡ true = ground (arith, h) in rw (insert, no, yes, no) refl
insert-right l d v (node rl rd rv rr) x level h =
    let no : ltb_ℤ x d ≡ false = ground (arith, h) in
    let yes : ltb_ℤ d x ≡ true = ground (arith, h) in
    rw (insert, no, yes) (go (modifiedsearch (node rl rd rv rr) x))
  where
    go :
        (o : Option (List Side))
        → put (node l d v (node rl rd rv rr)) x level (onward right (node rl rd rv rr) o)
          ≡ node l d v (put (node rl rd rv rr) x level o)
    go none = refl
    go (some way) = refl

pub insert-left :
    (l : Tree) (d : ℤ) (v : ℕ) (r : Tree) (x : ℤ) (level : ℕ)
    → x <ℤ d
    → insert (node l d v r) x level ≡ node (insert l x level) d v r
unfolding insert modifiedsearch attach
insert-left leaf d v r x level h =
    let yes : ltb_ℤ x d ≡ true = ground (arith, h) in rw (insert, yes, yes) refl
insert-left (node ll ld lv lr) d v r x level h =
    let yes : ltb_ℤ x d ≡ true = ground (arith, h) in
    rw (insert, yes) (go (modifiedsearch (node ll ld lv lr) x))
  where
    go :
        (o : Option (List Side))
        → put (node (node ll ld lv lr) d v r) x level (onward left (node ll ld lv lr) o)
          ≡ node (put (node ll ld lv lr) x level o) d v r
    go none = refl
    go (some way) = refl
