-- ===== src/Strings.antt =====
-- The two searches of 2022_2nd/CSE3080/Assignment/Assignment_04.c, `nfind` and `KMP`, with the number
-- of rounds that they print. A string is a function from its indices, with its length; `failure` is a
-- function too, whose items are one more than in C, so that -1 is 0.
pub mod Borders
pub mod Failure
pub mod Rounds
pub mod Scan
pub mod Naive
mod Tests
use package.sogang_university.Shared.{
  ℕ, zero, suc, ◌+◌, ◌-◌, ◌*◌, Bool, true, false, not, ◌==◌, ◌&&◌, ltb, if◌then◌else◌,
}

-- The `while` loop for failure[j], on i + 1. Each round makes it less.
pub fall : ℕ → (ℕ → ℕ) → (ℕ → ℕ) → ℕ → ℕ → ℕ
fall zero pattern failure j b = b
fall (suc fuel) pattern failure j b =
    let rest = fall fuel pattern failure j (failure (b - 1)) in
    if not (pattern j == pattern b) && ltb 0 b then rest else b

-- failure[j]
pub fail_at : (ℕ → ℕ) → (ℕ → ℕ) → ℕ → ℕ
unfolding fall
fail_at pattern failure j =
    let b = fall j pattern failure j (failure (j - 1)) in
    if pattern j == pattern b then b + 1 else 0

-- failure[j] = v
abbrev pub write : ℕ → ℕ → (ℕ → ℕ) → ℕ → ℕ
write j v failure q = if q == j then v else failure q

-- The loop that fills `failure` from `j` on, with the rounds left.
pub fill : ℕ → (ℕ → ℕ) → ℕ → (ℕ → ℕ) → ℕ → ℕ
unfolding fail_at
fill zero pattern j failure = failure
fill (suc left) pattern j failure =
    fill left pattern (j + 1) (write j (fail_at pattern failure j) failure)

-- `i`, `j` and `k` of the loop that searches.
pub record State : Type 0 where
  pub i : ℕ
  pub j : ℕ
  pub k : ℕ

abbrev pub goes_on : ℕ → ℕ → State → Bool
goes_on lens lenp s = ltb s.i lens && ltb s.j lenp

abbrev pub next : (ℕ → ℕ) → (ℕ → ℕ) → (ℕ → ℕ) → State → State
next string pattern failure s =
    if string s.i == pattern s.j
    then record { i = s.i + 1; j = s.j + 1; k = s.k + 1 }
    else if s.j == 0
    then record { i = s.i + 1; j = s.j; k = s.k + 1 }
    else record { i = s.i; j = failure (s.j - 1); k = s.k + 1 }

-- Out of fuel the loop stops where it is.
pub scan : ℕ → (ℕ → ℕ) → ℕ → (ℕ → ℕ) → ℕ → (ℕ → ℕ) → State → State
scan zero string lens pattern lenp failure s = s
scan (suc fuel) string lens pattern lenp failure s =
    let rest = scan fuel string lens pattern lenp failure (next string pattern failure s) in
    if goes_on lens lenp s then rest else s

-- `KMP`: whether it says YES, and the number. `left` is what stands in `failure` before.
pub kmp : (ℕ → ℕ) → (ℕ → ℕ) → ℕ → (ℕ → ℕ) → ℕ → Bool × ℕ
unfolding fill scan
kmp left string lens pattern lenp =
    let failure = fill (lenp - 1) pattern 1 (write 0 0 left) in
    let s =
      scan (2 * lens) string lens pattern lenp failure (record { i = 0; j = 0; k = lenp - 1 }) in
    (s.j == lenp, s.k)

-- The inner loop of `nfind`, with the rounds left up to `lastp`: `j` and `k` after it.
pub compare : ℕ → (ℕ → ℕ) → (ℕ → ℕ) → ℕ → ℕ → ℕ → ℕ × ℕ
compare zero string pattern start j k = (j, k)
compare (suc left) string pattern start j k =
    let rest = compare left string pattern start (j + 1) (k + 1) in
    if string (start + j) == pattern j then rest else (j, k)

-- The outer loop: whether it ends by `break`, and `j` and `k`. endmatch is start + lastp.
pub windows : ℕ → (ℕ → ℕ) → ℕ → (ℕ → ℕ) → ℕ → ℕ → ℕ → ℕ → Bool × ℕ × ℕ
unfolding compare
windows zero string lens pattern lastp start j k = (false, j, k)
windows (suc fuel) string lens pattern lastp start j k =
    let r =
      if string (start + lastp) == pattern lastp
      then compare lastp string pattern start 0 (k + 1)
      else (j, k + 1) in
    let rest = windows fuel string lens pattern lastp (start + 1) r.0 r.1 in
    if ltb (start + lastp) lens
    then if r.0 == lastp then (true, r.0, r.1) else rest
    else (false, j, k)

-- `nfind`, for a pattern of one character at least, as scanf stores one: whether it says YES, whether
-- it says NO, and the number.
pub nfind : (ℕ → ℕ) → ℕ → (ℕ → ℕ) → ℕ → Bool × Bool × ℕ
unfolding windows
nfind string lens pattern lenp =
    let r = windows lens string lens pattern (lenp - 1) 0 0 0 in (r.0, not (r.1 == lenp - 1), r.2)
