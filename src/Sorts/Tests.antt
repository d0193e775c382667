-- ===== src/Sorts/Tests.antt =====
-- The sorts on small lists, and the theorems at concrete inputs.
use sogang_university.Shared.{zero, suc, ◌≡◌, refl, arith, List, [], ◌∷◌, map, length}
use sogang_university.Shared.Int.{ℤ, pos, negsuc}
use sogang_university.Sorts.{sort_by}
use sogang_university.Sorts.Rearranged.{count, IsSorted}
use sogang_university.Sorts.Insertion.{IsAbove}
use sogang_university.Sorts.Main.{sort_by-IsSorted}

-- Twelve items, some of them twice.
abbrev sample : List ℤ
sample = negsuc 4 ∷ map pos (9 ∷ 3 ∷ 3 ∷ 7 ∷ 12 ∷ 1 ∷ 0 ∷ 9 ∷ 4 ∷ 2 ∷ 8 ∷ [])

abbrev in_order : List ℤ
in_order = negsuc 4 ∷ map pos (0 ∷ 1 ∷ 2 ∷ 3 ∷ 3 ∷ 4 ∷ 7 ∷ 8 ∷ 9 ∷ 9 ∷ 12 ∷ [])

by_insertion : sort_by 1 sample ≡ in_order
unfolding sort_by
by_insertion = refl

by_quick : sort_by 2 sample ≡ in_order
unfolding sort_by
by_quick = refl

by_merge : sort_by 3 sample ≡ in_order
unfolding sort_by
by_merge = refl

by_custom : sort_by 4 sample ≡ in_order
unfolding sort_by
by_custom = refl

sort_by-IsSorted_example :
    IsSorted 0 (length sample) (sort_by 4 sample)
    × (length (sort_by 4 sample) ≡ length sample)
    × ((v : ℤ) → count v (sort_by 4 sample) ≡ count v sample)
sort_by-IsSorted_example = sort_by-IsSorted 4 sample (omega arith)

-- The item before the range is not greater than those in it.
abbrev pair : List ℤ
pair = map pos (1 ∷ 5 ∷ 3 ∷ [])

pair-IsAbove : IsAbove 1 3 pair
pair-IsAbove zero zero il lj js = absurd (omega arith)
pair-IsAbove zero (suc zero) il lj js = omega arith
pair-IsAbove zero (suc (suc zero)) il lj js = omega arith
pair-IsAbove zero (suc (suc (suc j))) il lj js = absurd (omega arith)
pair-IsAbove (suc i) j il lj js = absurd (omega arith)
