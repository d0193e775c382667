-- ===== src/Malloc/Given.antt =====
-- What `mm_malloc` gives its caller, and when it gives nothing.
use sogang_university.Shared.{
  ℕ, ◌+◌, ◌-◌, ◌/◌, ◌%◌, ◌^◌, ◌≤◌, ◌<◌, ◌≡◌, refl, sym, ap, ◌∙◌, arith, inl, inr, Bool-cases, leb,
  if◌then◌else◌, Option, none, some, List, [], ◌∷◌, ◌++◌,
}
use mathlib.Core.Path.{subst}
use sogang_university.Malloc.{Memory, Heap, extend_heap}
use sogang_university.Malloc.Blocks.{Block, total, Before}
use sogang_university.Malloc.Around.{drop_free}
use sogang_university.Malloc.Well.{rev_onto, Well, At-to}
use sogang_university.Malloc.{adjust, larger, find_fit, mm_malloc}
use sogang_university.Malloc.Place.{placed}
use sogang_university.Malloc.Search.{NoFit}
use sogang_university.Malloc.Fit.{FitFound, nothing, found, find_fit_lem}
use sogang_university.Malloc.Extend.{Sbrk, extend_heap-none}
use sogang_university.Malloc.Calls.{
  adjust-bounds, larger_lem, Malloced, full, reused, made, mm_malloc-cases, mm_malloc-after,
  after_extend, after_fit,
}

-- The answer to a request for `size` bytes on a heap `s` of blocks `bs`: none, when no free block is
-- large enough and memlib refuses, and then nothing changes; or a block of the new, well-formed heap
-- that is taken and has room for its header, its footer and `size` bytes, at a multiple of 8.
pub data Gives (mem_sbrk : ℕ → ℕ → Option ℕ) (h : ℕ) (bs : List Block) (size : ℕ) (s : Heap)
    : Option ℕ × Heap → Type 0 where
  no_room :
      NoFit (adjust size) bs
      → mem_sbrk s.brk (larger (adjust size)) ≡ none
      → Gives mem_sbrk h bs size s (none, s)
  given :
      (ls : List Block) (b : Block) (rs : List Block) (s' : Heap)
      → Well h (rev_onto ls (b ∷ rs)) s'
      → b.alloc ≡ 1
      → size + 8 ≤ b.size
      → (h + total ls + 4) % 8 ≡ 0
      → Gives mem_sbrk h bs size s (some (h + total ls + 4), s')

Before-aligned : (m : Memory) (h : ℕ) (ls : List Block) → Before m h ls → total ls % 8 ≡ 0
Before-aligned m h [] t = omega arith
Before-aligned m h (b ∷ ls) (t, ts) =
    let go = Before-aligned m h ls ts in omega (arith, go, t.whole)

-- The block that `place` makes is the first of `placed`.
Gives-placed :
    (mem_sbrk : ℕ → ℕ → Option ℕ) (h : ℕ) (bs : List Block) (size : ℕ) (s : Heap) (ls : List Block)
    (b : Block) (rs : List Block) (s' : Heap)
    → Well h (rev_onto ls (placed (adjust size) b ++ rs)) s'
    → size + 8 ≤ adjust size
    → adjust size ≤ b.size
    → Gives mem_sbrk h bs size s (some (h + total ls + 4), s')
Gives-placed mem_sbrk h bs size s ls b rs s' w l m =
    let k = At-to h ls (placed (adjust size) b ++ rs) s' w.at in
    let whole = Before-aligned s'.mem h ls k.before in
    let start : (h + total ls + 4) % 8 ≡ 0 = omega (arith, whole, k.aligned) in
    elim (Bool-cases (leb 16 (b.size - adjust size))) [
      | inl e ↦
          given ls (record { size = adjust size; alloc = 1 })
            (record { size = b.size - adjust size; alloc = 0 } ∷ rs) s'
            (subst (λ z. Well h (rev_onto ls (z ++ rs)) s')
              (ap
                (λ z.
                  if z
                  then record { size = adjust size; alloc = 1 }
                    ∷ record { size = b.size - adjust size; alloc = 0 }
                    ∷ []
                  else record { size = b.size; alloc = 1 } ∷ [])
                e)
              w)
            refl l start
      | inr e ↦
          given ls (record { size = b.size; alloc = 1 }) rs s'
            (subst (λ z. Well h (rev_onto ls (z ++ rs)) s')
              (ap
                (λ z.
                  if z
                  then record { size = adjust size; alloc = 1 }
                    ∷ record { size = b.size - adjust size; alloc = 0 }
                    ∷ []
                  else record { size = b.size; alloc = 1 } ∷ [])
                e)
              w)
            refl (omega (arith, l, m)) start
    ]

Gives-cases :
    (mem_sbrk : ℕ → ℕ → Option ℕ) (h : ℕ) (bs : List Block) (size : ℕ) (s : Heap)
    (r : Option ℕ × Heap)
    → size + 8 ≤ adjust size
    → Malloced mem_sbrk h bs (adjust size) s r
    → Gives mem_sbrk h bs size s r
Gives-cases mem_sbrk h bs size s r l (full n e) = no_room n e
Gives-cases mem_sbrk h bs size s r l (reused ls b rs s' e fit w same) =
    Gives-placed mem_sbrk h bs size s ls b rs s' w l fit.1
Gives-cases mem_sbrk h bs size s r l (made ls b s' e m w same) =
    Gives-placed mem_sbrk h bs size s (drop_free ls) b [] s' w l m

-- On a well-formed heap, with memlib as it promises to be, a request for 1 to 2 ^ 30 - 1 bytes is
-- answered with nothing, when no free block is large enough and memlib refuses more, and then nothing
-- changes; or with a taken block, at a multiple of 8 and with room for the bytes, its header and its
-- footer, of a heap that is well-formed again and has no two free blocks next to each other.
pub mm_malloc_lem :
    (mem_sbrk : ℕ → ℕ → Option ℕ) (base size : ℕ) (bs : List Block) (s : Heap)
    → Sbrk mem_sbrk base
    → 0 < size
    → size < 2 ^ 30
    → Well (base + 12) bs s
    → Gives mem_sbrk (base + 12) bs size s (mm_malloc mem_sbrk size s)
mm_malloc_lem mem_sbrk base size bs s sbrk l m w =
    let (d, least, room, bound) = adjust-bounds size (omega (arith, m)) in
    Gives-cases mem_sbrk (base + 12) bs size s (mm_malloc mem_sbrk size s) room
      (mm_malloc-cases mem_sbrk base (base + 12) size bs s sbrk refl l m w)

NoFit-at : (size : ℕ) (ls rs : List Block) → NoFit size (rev_onto ls rs) → NoFit size rs
NoFit-at size [] rs n = n
NoFit-at size (a ∷ ls) rs n = (NoFit-at size ls (a ∷ rs) n).1

-- Memlib refuses.
refused_after :
    (mem_sbrk : ℕ → ℕ → Option ℕ) (h asize : ℕ) (bs : List Block) (s : Heap) (r : Option ℕ × Heap)
    → NoFit asize bs
    → extend_heap mem_sbrk (larger asize / 4) s ≡ (none, s)
    → FitFound h bs asize s r
    → after_fit mem_sbrk asize r ≡ (none, s)
refused_after mem_sbrk h asize bs s r n e (nothing k) = ap (after_extend mem_sbrk asize) e
refused_after mem_sbrk h asize bs s r n e (found ls b rs f fit) =
    let (g, k) = NoFit-at asize ls (b ∷ rs) (subst (NoFit asize) (sym f) n) in
    absurd (ground (arith, g, fit))

-- On a well-formed heap where no free block is large enough, a request for 1 to 2 ^ 30 - 1 bytes, of
-- which memlib refuses the block or the chunk, is answered with nothing, and the heap is as it was.
pub mm_malloc-refused :
    (mem_sbrk : ℕ → ℕ → Option ℕ) (h size : ℕ) (bs : List Block) (s : Heap)
    → 0 < size
    → size < 2 ^ 30
    → Well h bs s
    → NoFit (adjust size) bs
    → mem_sbrk s.brk (larger (adjust size)) ≡ none
    → mm_malloc mem_sbrk size s ≡ (none, s)
mm_malloc-refused mem_sbrk h size bs s l m w n e =
    let (d, least, room, bound) = adjust-bounds size (omega (arith, m)) in
    let (even, d', more, small) = larger_lem (adjust size) (d, least, omega (arith, m, bound)) in
    let refuses =
      extend_heap-none mem_sbrk (larger (adjust size) / 4) s (ap (mem_sbrk s.brk) even ∙ e) in
    mm_malloc-after mem_sbrk size s l
    ∙ refused_after mem_sbrk h (adjust size) bs s (find_fit (adjust size) s) n refuses
        (find_fit_lem h bs s (adjust size) w)
