-- ===== src/Malloc/Keeps.antt =====
-- Taken blocks are not written by `mm_malloc`.
use sogang_university.Shared.{
  ℕ, ◌+◌, ◌^◌, ◌≤◌, ◌<◌, ◌≡◌, ◌≢◌, ◌⊎◌, refl, sym, ap, ◌∙◌, arith, Option, List, [], ◌∷◌, ◌++◌,
}
use mathlib.Core.Path.{subst}
use sogang_university.Malloc.{Heap}
use sogang_university.Malloc.Blocks.{Block, total, At}
use sogang_university.Malloc.Around.{drop_free, At-Prev}
use sogang_university.Malloc.Well.{rev_onto, Well, At-to}
use sogang_university.Malloc.{adjust, mm_malloc}
use sogang_university.Malloc.Extend.{Sbrk}
use sogang_university.Malloc.Calls.{Malloced, full, reused, made, mm_malloc-cases}
use sogang_university.Malloc.Search.{rev_onto-nil, total-rev_onto}
use sogang_university.Malloc.Well.{Begins, free, kept, begins, free_size_kept}

abbrev first : Block → List Block → Block
first d [] = d
first d (b ∷ bs) = b

abbrev rest : List Block → List Block
rest [] = []
rest (b ∷ bs) = bs

-- A free block of a list and a taken one do not overlap.
disjoint :
    (xs : List Block) (c : Block) (ys xs' : List Block) (b : Block) (ys' : List Block)
    → xs ++ c ∷ ys ≡ xs' ++ b ∷ ys'
    → c.alloc ≢ b.alloc
    → total xs + c.size ≤ total xs' ⊎ total xs' + b.size ≤ total xs
disjoint [] c ys [] b ys' e n = absurd (n (ap (λ z. (first c z).alloc) e))
disjoint [] c ys (x ∷ xs') b ys' e n = let f = ap (λ z. (first c z).size) e in omega (arith, f)
disjoint (x ∷ xs) c ys [] b ys' e n = let f = ap (λ z. (first c z).size) e in omega (arith, f)
disjoint (x ∷ xs) c ys (x' ∷ xs') b ys' e n =
    let f = ap (λ z. (first c z).size) e in
    let go = disjoint xs c ys xs' b ys' (ap rest e) n in omega (arith, go, f)

disjoint_at :
    (ls : List Block) (c : Block) (rs ls' : List Block) (b : Block) (rs' : List Block)
    → rev_onto ls (c ∷ rs) ≡ rev_onto ls' (b ∷ rs')
    → c.alloc ≢ b.alloc
    → total ls + c.size ≤ total ls' ⊎ total ls' + b.size ≤ total ls
disjoint_at ls c rs ls' b rs' e n =
    let go =
      disjoint (rev_onto ls []) c rs (rev_onto ls' []) b rs'
        (sym (rev_onto-nil ls [] (c ∷ rs)) ∙ e ∙ rev_onto-nil ls' [] (b ∷ rs')) n in
    omega (arith, go, total-rev_onto ls [], total-rev_onto ls' [])

-- A taken block ends where a free one at the end of the heap begins, or before.
below_free :
    (ls : List Block) (c : Block) (rs ls' : List Block)
    → rev_onto ls (c ∷ rs) ≡ rev_onto ls' []
    → c.alloc ≡ 1
    → 0 < c.size
    → Begins ls'
    → total ls + c.size ≤ total (drop_free ls')
below_free ls c rs ls' e t l (kept x f) =
    let all = ap total e in
    rw (free_size_kept ls' f).1
      (omega (arith, all, total-rev_onto ls (c ∷ rs), total-rev_onto ls' []))
below_free ls c rs ls' e t l (free b bs f) =
    let go = disjoint_at ls c rs bs b [] e (λ z. omega (arith, z, t, f)) in
    let all = ap total e in
    rw f (omega (arith, go, all, l, total-rev_onto ls (c ∷ rs), total-rev_onto bs (b ∷ [])))

Malloced-keeps :
    (mem_sbrk : ℕ → ℕ → Option ℕ) (h asize : ℕ) (bs : List Block) (s : Heap) (r : Option ℕ × Heap)
    (ls : List Block) (c : Block) (rs : List Block) (q : ℕ)
    → Well h bs s
    → rev_onto ls (c ∷ rs) ≡ bs
    → c.alloc ≡ 1
    → 0 < c.size
    → h + total ls ≤ q
    → q < h + total ls + c.size
    → Malloced mem_sbrk h bs asize s r
    → r.1.mem q ≡ s.mem q
Malloced-keeps mem_sbrk h asize bs s r ls c rs q w e t l m n (full k f) = refl
Malloced-keeps mem_sbrk h asize bs s r ls c rs q w e t l m n (reused ls' b rs' s' f fit w' same) =
    same q (
      let go = disjoint_at ls c rs ls' b rs' (e ∙ sym f) (λ z. omega (arith, z, t, fit.0)) in
      omega (arith, go, m, n))
Malloced-keeps mem_sbrk h asize bs s r ls c rs q w e t l m n (made ls' b s' f le w' same) =
    let k = At-to h ls' [] s (subst (λ z. At h [] z s) (sym f) w.at) in
    let go = below_free ls c rs ls' (e ∙ sym f) t l (begins ls' (At-Prev h ls' [] s k).bit) in
    same q (omega (arith, go, n))

-- `mm_malloc` does not write a word of a block that is taken: on a well-formed heap, with memlib as
-- it promises to be, for a request of 1 to 2 ^ 30 - 1 bytes, whether a block is found, made or not.
pub mm_malloc-keeps :
    (mem_sbrk : ℕ → ℕ → Option ℕ) (base size : ℕ) (ls : List Block) (c : Block) (rs : List Block)
    (s : Heap) (q : ℕ)
    → Sbrk mem_sbrk base
    → 0 < size
    → size < 2 ^ 30
    → Well (base + 12) (rev_onto ls (c ∷ rs)) s
    → c.alloc ≡ 1
    → base + 12 + total ls ≤ q
    → q < base + 12 + total ls + c.size
    → (mm_malloc mem_sbrk size s).1.mem q ≡ s.mem q
mm_malloc-keeps mem_sbrk base size ls c rs s q sbrk l m w t from to =
    let h = base + 12 in
    Malloced-keeps mem_sbrk h (adjust size) (rev_onto ls (c ∷ rs)) s (mm_malloc mem_sbrk size s) ls
      c rs q w refl t (omega (arith, from, to)) from to
      (mm_malloc-cases mem_sbrk base h size (rev_onto ls (c ∷ rs)) s sbrk refl l m w)
