-- ===== src/Strings/Tests.antt =====
-- The two searches for abab in aababab.
use sogang_university.Shared.{◌≤◌, ℕ, ◌<◌, ◌≡◌, refl, arith, true, false, not, get_or, [], ◌∷◌}
use sogang_university.Strings.{goes_on, fall, fail_at, fill, scan, kmp, compare, windows, nfind}
use sogang_university.Strings.Rounds.{Occurs}
use sogang_university.Strings.Scan.{kmp_iff, kmp_rounds, searched}
use sogang_university.Strings.Naive.{nfind_agree}

abbrev text : ℕ → ℕ
text i = get_or (97 ∷ 97 ∷ 98 ∷ 97 ∷ 98 ∷ 97 ∷ 98 ∷ []) i 0

abbrev word : ℕ → ℕ
word i = get_or (97 ∷ 98 ∷ 97 ∷ 98 ∷ []) i 0

abbrev empty : ℕ → ℕ
empty i = 7

kmp_found : kmp empty text 7 word 4 ≡ (true, 9)
unfolding kmp fill fail_at fall scan
kmp_found = refl

nfind_found : nfind text 7 word 4 ≡ (true, false, 5)
unfolding nfind windows compare
nfind_found = refl

kmp_iff_example :
    ((kmp empty text 7 word 4).0 ≡ true → Occurs text 7 word 4)
    × (Occurs text 7 word 4 → (kmp empty text 7 word 4).0 ≡ true)
kmp_iff_example = kmp_iff empty text 7 word 4 (omega arith)

kmp_rounds_example :
    ((fuel : ℕ) → 14 ≤ fuel → goes_on 7 4 (searched fuel empty text 7 word 4) ≡ false)
    × ((kmp empty text 7 word 4).1 ≡ (searched 14 empty text 7 word 4).k)
    × ((kmp empty text 7 word 4).1 < 18)
kmp_rounds_example = kmp_rounds empty text 7 word 4 (omega arith)

nfind_agree_example :
    ((nfind text 7 word 4).0 ≡ (kmp empty text 7 word 4).0)
    × ((nfind text 7 word 4).1 ≡ not (kmp empty text 7 word 4).0)
nfind_agree_example = nfind_agree empty text 7 word 4 (omega arith)
