-- ===== src/Files/Table.antt =====
-- What the calls do to the table of descriptors.
use sogang_university.Shared.{
  ℕ, zero, suc, ◌+◌, ◌≤◌, ◌<◌, ◌≡◌, ◌≢◌, ◌⊎◌, refl, sym, ap, ◌∙◌, arith, inl, inr, false,
  Bool-cases, ◌==◌, List, [], ◌∷◌, get_or, set, length, length-set, get_or-set_self, get_or-set_ne,
}
use sogang_university.Shared.Int.{ℤ, pos, negsuc, pos_part}
use sogang_university.Files.{returned, exited, open_loop, open_file, close, close_all}

set_back : (fd : List ℕ) (i v : ℕ) → get_or fd i 0 ≡ 0 → set (set fd i v) i 0 ≡ fd
set_back [] i v h = refl
set_back (x ∷ fd) zero v h = ap (λ y. y ∷ fd) (sym h)
set_back (x ∷ fd) (suc i) v h = ap (λ l. x ∷ l) (set_back fd i v h)

-- The loop finds the first descriptor from `i` on that is free, or none of the `left` ones is.
data Finds (left i fp : ℕ) (fd : List ℕ) : Type 0 where
  full :
      open_loop left i fp fd ≡ returned (negsuc 0) fd
      → ((j : ℕ) → i ≤ j → j < i + left → get_or fd j 0 ≢ 0)
      → Finds left i fp fd
  found :
      (n : ℕ)
      → open_loop left i fp fd ≡ returned (pos n) (set fd n fp)
      → i ≤ n
      → n < i + left
      → get_or fd n 0 ≡ 0
      → ((j : ℕ) → i ≤ j → j < n → get_or fd j 0 ≢ 0)
      → Finds left i fp fd

later_too :
    (fd : List ℕ) (i j : ℕ)
    → get_or fd i 0 ≢ 0
    → i ≤ j
    → (i + 1 ≤ j → get_or fd j 0 ≢ 0)
    → get_or fd j 0 ≢ 0
later_too fd i j here a later = elim (Bool-cases (i == j)) [
  | inl e ↦ let same : i ≡ j = ground arith in rw (← same) here
  | inr e ↦ later (ground arith)
]

open_loop-Finds : (left i fp : ℕ) (fd : List ℕ) → Finds left i fp fd
unfolding open_loop
open_loop-Finds zero i fp fd = full refl (λ j a b. absurd (omega arith))
open_loop-Finds (suc left) i fp fd = elim (Bool-cases (get_or fd i 0 == 0)) [
  | inl e ↦
      found i (rw e) (omega arith) (omega arith) (ground arith) (λ j a b. absurd (omega arith))
  | inr e ↦
      let here : get_or fd i 0 ≢ 0 = ground arith in
      elim (open_loop-Finds left (i + 1) fp fd) [
        | full run all ↦
            full (rw (e, run)) (λ j a b. later_too fd i j here a (λ c. all j c (omega arith)))
        | found n run lo hi free all ↦
            found n (rw (e, run)) (omega arith) (omega arith) free
              (λ j a b. later_too fd i j here a (λ c. all j c b))
      ]
]

close_fresh :
    (beyond n fp : ℕ) (fd : List ℕ)
    → length fd ≡ 128
    → n < 128
    → fp ≢ 0
    → get_or fd n 0 ≡ 0
    → close beyond (pos n) (set fd n fp) ≡ returned (pos 0) fd
unfolding close
close_fresh beyond n fp fd size lt some_file free =
    let there : get_or (set fd n fp) n 0 ≡ fp = get_or-set_self fd n fp 0 (omega arith) in
    let back = set_back fd n fp free in ground (arith, there, back)

-- Opening a file takes the least free descriptor from 2 to 127 for it, and closing that one gives
-- the table before back; only where all of them are in use the result is -1 and the table as it was.
pub open_file-close :
    (beyond fp : ℕ) (fd : List ℕ)
    → length fd ≡ 128
    → fp ≢ 0
    → ((open_file fp fd ≡ returned (negsuc 0) fd) × ((j : ℕ) → 2 ≤ j → j < 128 → get_or fd j 0 ≢ 0))
      ⊎ ((n : ℕ) × (open_file fp fd ≡ returned (pos n) (set fd n fp))
          × (2 ≤ n)
          × (n < 128)
          × (get_or fd n 0 ≡ 0)
          × ((j : ℕ) → 2 ≤ j → j < n → get_or fd j 0 ≢ 0)
          × (close beyond (pos n) (set fd n fp) ≡ returned (pos 0) fd))
unfolding open_file
open_file-close beyond fp fd size some_file =
    let is_file : (fp == 0) ≡ false = ground arith in
    elim (open_loop-Finds 126 2 fp fd) [
      | full run all ↦ inl (rw (open_file, is_file, run), all)
      | found n run lo hi free all ↦ inr (
        n,
        rw (open_file, is_file, run),
        lo,
        hi,
        free,
        all,
        close_fresh beyond n fp fd size hi some_file free,
      )
    ]

close_all_null :
    (left i j : ℕ) (fd : List ℕ)
    → i + left ≤ length fd
    → (j < i → get_or fd j 0 ≡ 0)
    → j < i + left
    → get_or (close_all left i fd) j 0 ≡ 0
unfolding close_all
close_all_null zero i j fd fits before lt = before (omega arith)
close_all_null (suc left) i j fd fits before lt = elim (Bool-cases (get_or fd i 0 == 0)) [
  | inl e ↦ rw e (
      close_all_null left (i + 1) j fd (omega arith) (λ b. up fd (ground arith) before b)
        (omega arith))
  | inr e ↦ rw e (
      close_all_null left (i + 1) j (set fd i 0) (omega (arith, length-set fd i 0))
        (λ b.
          up (set fd i 0) (get_or-set_self fd i 0 0 (omega arith))
            (λ c. get_or-set_ne fd i j 0 0 (omega arith) ∙ before c) b)
        (omega arith))
]
  where
    up : (g : List ℕ) → get_or g i 0 ≡ 0 → (j < i → get_or g j 0 ≡ 0) → j < i + 1 → get_or g j 0 ≡ 0
    up g here before b = elim (Bool-cases (i == j)) [
      | inl e ↦ let same : i ≡ j = ground arith in rw (← same) here
      | inr e ↦ before (ground arith)
    ]

-- The loop of `exit` leaves no file open, of whatever descriptor from 2 to 127.
pub exit_closes :
    (fd : List ℕ) (j : ℕ) → length fd ≡ 128 → 2 ≤ j → j < 128 → get_or (close_all 126 2 fd) j 0 ≡ 0
exit_closes fd j size lo hi =
    close_all_null 126 2 j fd (omega arith) (λ b. absurd (omega arith)) (omega arith)

-- A file of the table is closed, and a call that returns has closed one.
pub close_lem :
    (beyond n : ℕ) (fd : List ℕ)
    → n < 128
    → get_or fd n 0 ≢ 0
    → close beyond (pos n) fd ≡ returned (pos 0) (set fd n 0)
unfolding close
close_lem beyond n fd l h = ground (arith, h)

pub close-or :
    (beyond : ℕ) (n : ℤ) (fd : List ℕ)
    → (close beyond n fd ≡ exited) ⊎ (close beyond n fd ≡ returned (pos 0) (set fd (pos_part n) 0))
unfolding close
close-or beyond n fd = ground arith

-- `open` leaves the size of the table as it was.
pub length-open_file :
    (fp : ℕ) (fd : List ℕ)
    → (v : ℤ) × (after : List ℕ) × (open_file fp fd ≡ returned v after) × (length after ≡ length fd)
unfolding open_file
length-open_file fp fd = elim (Bool-cases (fp == 0)) [
  | inl e ↦ (negsuc 0, fd, rw e refl, refl)
  | inr e ↦ elim (open_loop-Finds 126 2 fp fd) [
    | full run all ↦ (negsuc 0, fd, rw e run, refl)
    | found n run lo hi free all ↦ (pos n, set fd n fp, rw e run, length-set fd n fp)
  ]
]

pub length-close_all : (left i : ℕ) (fd : List ℕ) → length (close_all left i fd) ≡ length fd
unfolding close_all
length-close_all zero i fd = refl
length-close_all (suc left) i fd = elim (Bool-cases (get_or fd i 0 == 0)) [
  | inl e ↦ rw e (length-close_all left (i + 1) fd)
  | inr e ↦ rw e (length-close_all left (i + 1) (set fd i 0) ∙ length-set fd i 0)
]
