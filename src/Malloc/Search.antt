-- ===== src/Malloc/Search.antt =====
-- The two loops of `find_fit` on the list of blocks.
use sogang_university.Shared.{
  ℕ, zero, suc, ◌+◌, ◌-◌, ◌≤◌, ◌<◌, ◌≡◌, refl, ap, arith, inl, inr, Bool, true, false, Bool-cases,
  ◌==◌, ◌&&◌, leb, ltb, Option, none, some, List, [], ◌∷◌, ◌++◌,
}
use mathlib.Core.Path.{subst}
use sogang_university.Malloc.{Memory, get_size, hdrp, next_blkp, fits, fit_after, fit_before}
use sogang_university.Malloc.Blocks.{Block, total, IsBlock, Tiles, get_size_word, get_alloc_word}
use sogang_university.Malloc.Around.{prev_size}
use sogang_university.Malloc.Well.{rev_onto}

-- A free block of so many bytes at least.
abbrev pub Fits : ℕ → Block → Type 0
Fits size b = (b.alloc ≡ 0) × (size ≤ b.size)

abbrev pub fits_block : ℕ → Block → Bool
fits_block size b = b.alloc == 0 && leb size b.size

-- No block of a list is one.
abbrev pub NoFit : ℕ → List Block → Type 0
NoFit size [] = Unit
NoFit size (b ∷ bs) = (fits_block size b ≡ false) × NoFit size bs

-- A search of the blocks `bs` from `p` on finds a block, or there is none.
pub data Search (size p : ℕ) (bs : List Block) : Option ℕ → Type 0 where
  missed : NoFit size bs → Search size p bs none
  met :
      (xs : List Block) (b : Block) (ys : List Block)
      → bs ≡ xs ++ b ∷ ys
      → Fits size b
      → Search size p bs (some (p + total xs + 4))

size_lem : (m : Memory) (p : ℕ) (b : Block) → IsBlock m p b → get_size m (hdrp (p + 4)) ≡ b.size
size_lem m p b k =
    let at : p + 4 - 4 ≡ p = omega arith in
    rw at (get_size_word m p b.size b.alloc k.header k.whole k.bit)

fits_lem :
    (m : Memory) (p size : ℕ) (b : Block) → IsBlock m p b → fits m size (p + 4) ≡ fits_block size b
fits_lem m p size b k =
    let at : p + 4 - 4 ≡ p = omega arith in
    rw
      (
        at,
        get_size_word m p b.size b.alloc k.header k.whole k.bit,
        get_alloc_word m p b.size b.alloc k.header k.whole k.bit,
      )
      refl

Fits-test : (size : ℕ) (b : Block) → fits_block size b ≡ true → Fits size b
Fits-test size b e = (ground (arith, e), ground (arith, e))

Search-here :
    (size p : ℕ) (b : Block) (bs : List Block)
    → fits_block size b ≡ true
    → Search size p (b ∷ bs) (some (p + 4))
Search-here size p b bs e =
    let at : p + 0 ≡ p = omega arith in
    subst (λ z. Search size p (b ∷ bs) (some (z + 4))) at (met [] b bs refl (Fits-test size b e))

Search-next :
    (size p : ℕ) (b : Block) (bs : List Block) (r : Option ℕ)
    → fits_block size b ≡ false
    → Search size (p + b.size) bs r
    → Search size p (b ∷ bs) r
Search-next size p b bs r e (missed k) = missed (e, k)
Search-next size p b bs r e (met xs c ys f k) =
    let at : p + (b.size + total xs) ≡ p + b.size + total xs = omega arith in
    subst (λ z. Search size p (b ∷ bs) (some (z + 4))) at (met (b ∷ xs) c ys (ap (λ z. b ∷ z) f) k)

pub fit_after_lem :
    (fuel : ℕ) (m : Memory) (size p : ℕ) (bs : List Block)
    → Tiles m p bs
    → m (p + total bs) ≡ 1
    → total bs < fuel
    → Search size p bs (fit_after fuel m size (p + 4))
unfolding fit_after
fit_after_lem zero m size p bs t e l = absurd (omega (arith, l))
fit_after_lem (suc fuel) m size p [] t e l =
    let at : p + 4 - 4 ≡ p = omega arith in
    let end : get_size m (hdrp (p + 4)) ≡ 0 = rw at (
      let at' : p + 0 ≡ p = omega arith in
      let e' = subst (λ q. m q ≡ 1) at' e in omega (arith, e')) in
    rw (fit_after, end) (missed tt)
fit_after_lem (suc fuel) m size p (b ∷ bs) (t, ts) e l =
    let size' = size_lem m p b t in
    let place : p + 4 + b.size ≡ p + b.size + 4 = omega arith in
    let end : p + (b.size + total bs) ≡ p + b.size + total bs = omega arith in
    let go =
      fit_after_lem fuel m size (p + b.size) bs ts (subst (λ q. m q ≡ 1) end e)
        (omega (arith, l, t.least)) in
    let some_size : (b.size == 0) ≡ false = ground (arith, t.least) in
    elim (Bool-cases (fits_block size b)) [
      | inl f ↦
          rw (fit_after, fits_lem m p size b t, size', some_size, f) (Search-here size p b bs f)
      | inr f ↦
          rw (fit_after, fits_lem m p size b t, size', some_size, f, place)
            (Search-next size p b bs _ f go)
    ]

-- The loop from `bp` passes the blocks `bs`, which begin at `p`, and stops at `last`.
abbrev pub Ends : ℕ → ℕ → ℕ → List Block → Type 0
Ends p bp last [] = bp ≡ last
Ends p bp last (b ∷ bs) = Ends (p + b.size) (p + 4) last bs

Ends-le :
    (m : Memory) (p bp last : ℕ) (bs : List Block)
    → Tiles m p bs
    → bp < p + 4
    → Ends p bp last bs
    → bp ≤ last
Ends-le m p bp last [] t l e = omega (arith, e)
Ends-le m p bp last (b ∷ bs) (t, ts) l e =
    let go = Ends-le m (p + b.size) (p + 4) last bs ts (omega (arith, t.least)) e in
    omega (arith, go, l)

pub fit_before_lem :
    (fuel : ℕ) (m : Memory) (size last p bp : ℕ) (bs : List Block)
    → Tiles m p bs
    → next_blkp m bp ≡ p + 4
    → bp < p + 4
    → Ends p bp last bs
    → total bs < fuel
    → Search size p bs (fit_before fuel m size last bp)
unfolding fit_before
fit_before_lem zero m size last p bp bs t e s f l = absurd (omega (arith, l))
fit_before_lem (suc fuel) m size last p bp [] t e s f l =
    let test : ltb bp last ≡ false = ground (arith, f) in rw (fit_before, test) (missed tt)
fit_before_lem (suc fuel) m size last p bp (b ∷ bs) (t, ts) e s f l =
    let le = Ends-le m (p + b.size) (p + 4) last bs ts (omega (arith, t.least)) f in
    let test : ltb bp last ≡ true = ground (arith, le, s) in
    let next : next_blkp m (p + 4) ≡ p + b.size + 4 =
      let size' = size_lem m p b t in omega (arith, size') in
    let go =
      fit_before_lem fuel m size last (p + b.size) (p + 4) bs ts next (omega (arith, t.least)) f
        (omega (arith, l, t.least)) in
    elim (Bool-cases (fits_block size b)) [
      | inl g ↦ rw (fit_before, test, e, fits_lem m p size b t, g) (Search-here size p b bs g)
      | inr g ↦ rw (fit_before, test, e, fits_lem m p size b t, g) (Search-next size p b bs _ g go)
    ]

prev_size-le : (bs : List Block) → prev_size bs ≤ total bs + 8
prev_size-le [] = omega arith
prev_size-le (b ∷ bs) = omega arith

pub Ends-rev :
    (h bp last : ℕ) (ls rs : List Block)
    → bp + prev_size ls ≡ h + total ls + 4
    → 8 ≤ h
    → Ends (h + total ls) bp last rs
    → Ends h (h - 4) last (rev_onto ls rs)
Ends-rev h bp last [] rs e l k =
    let at : h + 0 ≡ h = omega arith in
    let at' : bp ≡ h - 4 = omega (arith, e) in
    subst (λ z. Ends h z last rs) at' (subst (λ z. Ends z bp last rs) at k)
Ends-rev h bp last (a ∷ ls) rs e l k =
    let at : h + (a.size + total ls) ≡ h + total ls + a.size = omega arith in
    let at' : bp ≡ h + total ls + 4 = omega (arith, e) in
    Ends-rev h (h + total ls + 4 - prev_size ls) last ls (a ∷ rs)
      (omega (arith, prev_size-le ls, l)) l
      (subst (λ z. Ends (h + total ls + a.size) z last rs) at'
        (subst (λ z. Ends z bp last rs) at k))

pub rev_onto-append :
    (ls xs ys : List Block) → rev_onto ls (xs ++ ys) ≡ rev_onto (rev_onto xs ls) ys
rev_onto-append ls [] ys = refl
rev_onto-append ls (x ∷ xs) ys = rev_onto-append (x ∷ ls) xs ys

pub rev_onto-nil : (ls ms rs : List Block) → rev_onto ls (ms ++ rs) ≡ rev_onto ls ms ++ rs
rev_onto-nil [] ms rs = refl
rev_onto-nil (a ∷ ls) ms rs = rev_onto-nil ls (a ∷ ms) rs

pub total-rev_onto : (ls rs : List Block) → total (rev_onto ls rs) ≡ total ls + total rs
total-rev_onto [] rs = omega arith
total-rev_onto (a ∷ ls) rs = omega (arith, total-rev_onto ls (a ∷ rs))

pub NoFit-append :
    (size : ℕ) (xs ys : List Block) → NoFit size xs → NoFit size ys → NoFit size (xs ++ ys)
NoFit-append size [] ys k l = l
NoFit-append size (x ∷ xs) ys (e, k) l = (e, NoFit-append size xs ys k l)
