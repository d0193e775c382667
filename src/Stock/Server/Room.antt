-- ===== src/Stock/Server/Room.antt =====
-- How much `show` writes.
use sogang_university.Shared.{
  ℕ, ◌+◌, ◌*◌, ◌≤◌, ◌≡◌, refl, arith, Bool-cases, inl, inr, List, [], ◌∷◌, ◌++◌,
}
use sogang_university.Shared.Int.{ℤ, eq_ℤ, ltb_ℤ}
use sogang_university.Stock.{Stock, Tree, null, node, set_count, show_tree}
use sogang_university.Stock.Server.{text_size}

abbrev pub stocks : Tree → ℕ
stocks null = 0
stocks (node left s right) = stocks left + stocks right + 1

pub stocks-set_count : (t : Tree) (id n : ℤ) → stocks (set_count t id n) ≡ stocks t
unfolding set_count
stocks-set_count null id n = refl
stocks-set_count (node left s right) id n =
    let below = stocks-set_count left id n in
    let above = stocks-set_count right id n in
    elim (Bool-cases (eq_ℤ s.id id)) [
      | inl e ↦ rw e refl
      | inr e ↦ elim (Bool-cases (ltb_ℤ id s.id)) [
        | inl b ↦ rw (e, b) (omega (arith, below))
        | inr b ↦ rw (e, b) (omega (arith, above))
      ]
    ]

text_size-append :
    (line_size : Stock → ℕ) (xs ys : List Stock)
    → text_size line_size (xs ++ ys) ≡ text_size line_size xs + text_size line_size ys
text_size-append line_size [] ys = omega arith
text_size-append line_size (x ∷ xs) ys =
    let rest = text_size-append line_size xs ys in omega (arith, rest)

pub text_size-show_tree :
    (line_size : Stock → ℕ) (t : Tree) (buf : List Stock)
    → ((s : Stock) → line_size s ≤ 36)
    → text_size line_size (show_tree t buf) ≤ 36 * stocks t + text_size line_size buf
unfolding show_tree
text_size-show_tree line_size null buf h = omega arith
text_size-show_tree line_size (node left s right) buf h =
    let to_left = text_size-show_tree line_size left buf h in
    let to_right = text_size-show_tree line_size right (show_tree left buf ++ (s ∷ [])) h in
    let middle = text_size-append line_size (show_tree left buf) (s ∷ []) in
    let one = h s in omega (arith, to_left, to_right, middle, one)
