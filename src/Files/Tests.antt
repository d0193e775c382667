-- ===== src/Files/Tests.antt =====
-- The calls on small tables, and the theorems at concrete inputs.
use sogang_university.Shared.{
  ℕ, ◌≤◌, ◌<◌, ◌≡◌, ◌≢◌, ◌⊎◌, refl, arith, List, ◌∷◌, replicate, get_or, set,
}
use sogang_university.Shared.Int.{pos, negsuc}
use sogang_university.Files.{returned, open_file, close}
use sogang_university.Files.Table.{open_file-close}

-- The descriptors 2 and 4 are in use.
abbrev table : List ℕ
table = 0 ∷ 0 ∷ 70 ∷ 0 ∷ 71 ∷ replicate 123 0

open_file-close_example :
    ((open_file 80 table ≡ returned (negsuc 0) table)
      × ((j : ℕ) → 2 ≤ j → j < 128 → get_or table j 0 ≢ 0))
    ⊎ ((n : ℕ) × (open_file 80 table ≡ returned (pos n) (set table n 80))
        × (2 ≤ n)
        × (n < 128)
        × (get_or table n 0 ≡ 0)
        × ((j : ℕ) → 2 ≤ j → j < n → get_or table j 0 ≢ 0)
        × (close 5 (pos n) (set table n 80) ≡ returned (pos 0) table))
open_file-close_example = open_file-close 5 80 table refl (omega arith)
