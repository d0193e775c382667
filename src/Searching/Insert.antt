-- ===== src/Searching/Insert.antt =====
-- `insert` goes down one side.
use sogang_university.Shared.{
  ◌≡◌, refl, arith, inl, inr, true, false, Bool-cases, Option, none, some, List,
}
use sogang_university.Shared.Int.{ℤ, ltb_ℤ, ◌<ℤ◌, eq_of_parts}
use sogang_university.Searching.{
  Tree, leaf, node, Child, left, right, onward, modifiedsearch, attach, insert,
}

-- Less, greater or equal.
pub data Compared (x d : ℤ) : Type 0 where
  less : ltb_ℤ x d ≡ true → x <ℤ d → Compared x d
  greater : ltb_ℤ x d ≡ false → ltb_ℤ d x ≡ true → d <ℤ x → Compared x d
  equal : ltb_ℤ x d ≡ false → ltb_ℤ d x ≡ false → x ≡ d → Compared x d

pub compared : (x d : ℤ) → Compared x d
compared x d = elim (Bool-cases (ltb_ℤ x d)) [
  | inl e ↦ less e (ground (arith, e))
  | inr e ↦ elim (Bool-cases (ltb_ℤ d x)) [
    | inl f ↦ greater e f (ground (arith, f))
    | inr f ↦ equal e f (eq_of_parts x d (ground (arith, e, f)))
  ]
]

abbrev put : Tree → ℤ → Option (List Child) → Tree
put t x none = t
put t x (some way) = attach way t x

pub insert-right :
    (l : Tree) (d : ℤ) (r : Tree) (x : ℤ)
    → ltb_ℤ x d ≡ false
    → ltb_ℤ d x ≡ true
    → insert (node l d r) x ≡ node l d (insert r x)
unfolding insert modifiedsearch attach
insert-right l d leaf x isnt is = rw (insert, isnt, is, isnt) refl
insert-right l d (node rl rd rr) x isnt is =
    rw (insert, isnt, is) (go (modifiedsearch (node rl rd rr) x))
  where
    go :
        (o : Option (List Child))
        → put (node l d (node rl rd rr)) x (onward right (node rl rd rr) o)
          ≡ node l d (put (node rl rd rr) x o)
    go none = refl
    go (some way) = refl

pub insert-left :
    (l : Tree) (d : ℤ) (r : Tree) (x : ℤ)
    → ltb_ℤ x d ≡ true
    → insert (node l d r) x ≡ node (insert l x) d r
unfolding insert modifiedsearch attach
insert-left leaf d r x is = rw (insert, is, is) refl
insert-left (node ll ld lr) d r x is = rw (insert, is) (go (modifiedsearch (node ll ld lr) x))
  where
    go :
        (o : Option (List Child))
        → put (node (node ll ld lr) d r) x (onward left (node ll ld lr) o)
          ≡ node (put (node ll ld lr) x o) d r
    go none = refl
    go (some way) = refl

pub insert-same :
    (l : Tree) (d : ℤ) (r : Tree) (x : ℤ)
    → ltb_ℤ x d ≡ false
    → ltb_ℤ d x ≡ false
    → insert (node l d r) x ≡ node l d r
unfolding insert modifiedsearch
insert-same l d r x isnt isnt_too = rw (insert, isnt, isnt_too) refl
