-- ===== src/Malloc/Calls.antt =====
-- `mm_malloc`: the block that it gives.
use sogang_university.Shared.{
  ℕ, ◌+◌, ◌/◌, ◌%◌, ◌^◌, ◌≤◌, ◌<◌, ◌≡◌, ◌⊎◌, refl, sym, ap, ◌∙◌, arith, inl, false, ◌==◌, Option,
  none, some, List, [], ◌∷◌, ◌++◌, append-nil,
}
use mathlib.Core.Path.{subst}
use sogang_university.Malloc.{Heap, extend_heap, even_bytes}
use sogang_university.Malloc.Blocks.{Block, total, At}
use sogang_university.Malloc.Around.{free_size, drop_free}
use sogang_university.Malloc.Well.{rev_onto, Apart, Well, At-last, At-to, Apart-to}
use sogang_university.Malloc.{adjust, larger, take_block, find_fit, mm_malloc}
use sogang_university.Malloc.Place.{placed, place-frame}
use sogang_university.Malloc.Take.{take_block_lem}
use sogang_university.Malloc.Search.{Fits, NoFit, rev_onto-append}
use sogang_university.Malloc.Fit.{FitFound, nothing, found, find_fit_lem}
use sogang_university.Malloc.Extend.{Sbrk, Extended, refused, extended, extend_heap_lem}

-- The block for a request has room for it and for a header and a footer, and its size is a multiple
-- of 8, 16 at least, and 16 or the least such, when the sum that the code takes does not overflow.
pub adjust-bounds :
    (size : ℕ)
    → size + 15 < 2 ^ 64
    → (adjust size % 8 ≡ 0)
      × (16 ≤ adjust size)
      × (size + 8 ≤ adjust size)
      × (adjust size < size + 8 + 8 ⊎ adjust size ≡ 16)
adjust-bounds size l = (ground (arith, l), ground (arith, l), ground (arith, l), ground (arith, l))

pub larger_lem :
    (asize : ℕ)
    → (asize % 8 ≡ 0) × (16 ≤ asize) × (asize < 2 ^ 31)
    → (even_bytes (larger asize / 4) ≡ larger asize)
      × (larger asize % 8 ≡ 0)
      × (asize ≤ larger asize)
      × (larger asize < 2 ^ 31)
larger_lem asize (d, l, m) = (ground (arith, d), ground (arith, d), ground arith, ground (arith, m))

-- What `mm_malloc` makes of a heap `s` of blocks `bs`.
pub data Malloced (mem_sbrk : ℕ → ℕ → Option ℕ) (h : ℕ) (bs : List Block) (asize : ℕ) (s : Heap)
    : Option ℕ × Heap → Type 0 where
  full :
      NoFit asize bs
      → mem_sbrk s.brk (larger asize) ≡ none
      → Malloced mem_sbrk h bs asize s (none, s)
  reused :
      (ls : List Block) (b : Block) (rs : List Block) (s' : Heap)
      → rev_onto ls (b ∷ rs) ≡ bs
      → Fits asize b
      → Well h (rev_onto ls (placed asize b ++ rs)) s'
      → ((q : ℕ) → q < h + total ls ⊎ h + total ls + b.size ≤ q → s'.mem q ≡ s.mem q)
      → Malloced mem_sbrk h bs asize s (some (h + total ls + 4), s')
  made :
      (ls : List Block) (b : Block) (s' : Heap)
      → rev_onto ls [] ≡ bs
      → asize ≤ b.size
      → Well h (rev_onto (drop_free ls) (placed asize b ++ [])) s'
      → ((q : ℕ) → q < h + total (drop_free ls) → s'.mem q ≡ s.mem q)
      → Malloced mem_sbrk h bs asize s (some (h + total (drop_free ls) + 4), s')

module _ (mem_sbrk : ℕ → ℕ → Option ℕ) (asize : ℕ) where
  -- The end of `mm_malloc`, from the results of `extend_heap` and of `find_fit`.
  abbrev pub after_extend : Option ℕ × Heap → Option ℕ × Heap
  after_extend r = elim r.0 [ none ↦ (none, r.1) | some bp ↦ take_block bp asize r.1 ]

  abbrev pub after_fit : Option ℕ × Heap → Option ℕ × Heap
  after_fit r = elim r.0 [
    | none ↦ after_extend (extend_heap mem_sbrk (larger asize / 4) r.1)
    | some bp ↦ take_block bp asize r.1
  ]

pub mm_malloc-after :
    (mem_sbrk : ℕ → ℕ → Option ℕ) (size : ℕ) (s : Heap)
    → 0 < size
    → mm_malloc mem_sbrk size s ≡ after_fit mem_sbrk (adjust size) (find_fit (adjust size) s)
unfolding mm_malloc
mm_malloc-after mem_sbrk size s l =
    let test : (size == 0) ≡ false = ground (arith, l) in rw (mm_malloc, test) refl

module _ (mem_sbrk : ℕ → ℕ → Option ℕ) (base h : ℕ) (sbrk : Sbrk mem_sbrk base)
    (start : base + 12 ≡ h) (asize : ℕ)
    (sizes : (asize % 8 ≡ 0) × (16 ≤ asize) × (asize < 2 ^ 31)) where
  Malloced-extend :
      (ls : List Block) (s : Heap) (size : ℕ) (r : Option ℕ × Heap)
      → asize ≤ size
      → size ≡ larger asize
      → NoFit asize (rev_onto ls [])
      → Extended mem_sbrk h ls size s r
      → Malloced mem_sbrk h (rev_onto ls []) asize s (after_extend mem_sbrk asize r)
  Malloced-extend ls s size r l f n (refused e) = full n (ap (mem_sbrk s.brk) (sym f) ∙ e)
  Malloced-extend ls s size r l f n (extended s' w same) =
      let b : Block = record { size = free_size ls + size + 0; alloc = 0 } in
      made ls b (take_block (h + total (drop_free ls) + 4) asize s').1 refl (omega (arith, l))
        (take_block_lem h (drop_free ls) b [] s' asize w refl (sizes.0, sizes.1, omega (arith, l)))
        (λ q below.
          place-frame h (drop_free ls) b [] s' asize (At-to h (drop_free ls) (b ∷ []) s' w.at)
            (sizes.0, sizes.1, omega (arith, l)) q (inl below)
          ∙ same q below)

  Malloced-fit :
      (bs : List Block) (s : Heap) (r : Option ℕ × Heap)
      → Well h bs s
      → FitFound h bs asize s r
      → Malloced mem_sbrk h bs asize s (after_fit mem_sbrk asize r)
  Malloced-fit bs s r w (nothing n) =
      let ls = rev_onto bs [] in
      let back : rev_onto ls [] ≡ bs = sym (rev_onto-append [] bs []) ∙ append-nil bs in
      let (even, d, l, m) = larger_lem asize sizes in
      let k = At-to h ls [] s (subst (λ z. At h [] z s) (sym back) w.at) in
      let apart = (Apart-to ls [] (subst Apart (sym back) w.apart)).0 in
      let bytes = even_bytes (larger asize / 4) in
      let got : Malloced mem_sbrk h (rev_onto ls []) asize s (after_fit mem_sbrk asize (none, s)) =
        Malloced-extend ls s bytes (extend_heap mem_sbrk (larger asize / 4) s)
          (omega (arith, l, even)) even (subst (NoFit asize) (sym back) n)
          (extend_heap_lem mem_sbrk base h sbrk start ls (larger asize / 4) s k apart
            (omega (arith, even, d), omega (arith, even, l, sizes), omega (arith, even, m))) in
      subst (λ z. Malloced mem_sbrk h z asize s (after_fit mem_sbrk asize (none, s))) back got
  Malloced-fit bs s r w (found ls b rs e fit) =
      let s1 : Heap = record s { last_bp = h + total ls + 4 } in
      let k : At h [] (rev_onto ls (b ∷ rs)) s1 =
        At-last h [] (rev_onto ls (b ∷ rs)) s (h + total ls + 4)
          (subst (λ z. At h [] z s) (sym e) w.at) in
      let w1 : Well h (rev_onto ls (b ∷ rs)) s1 = record {
        at = k;
        apart = subst Apart (sym e) w.apart;
        last = record { passed = b ∷ ls; rest = rs; all = refl; place = omega arith };
      } in
      let fits : (asize % 8 ≡ 0) × (16 ≤ asize) × (asize ≤ b.size) = (sizes.0, sizes.1, fit.1) in
      reused ls b rs (take_block (h + total ls + 4) asize s1).1 e fit
        (take_block_lem h ls b rs s1 asize w1 fit.0 fits)
        (λ q out. place-frame h ls b rs s1 asize (At-to h ls (b ∷ rs) s1 k) fits q out)

pub mm_malloc-cases :
    (mem_sbrk : ℕ → ℕ → Option ℕ) (base h size : ℕ) (bs : List Block) (s : Heap)
    → Sbrk mem_sbrk base
    → base + 12 ≡ h
    → 0 < size
    → size < 2 ^ 30
    → Well h bs s
    → Malloced mem_sbrk h bs (adjust size) s (mm_malloc mem_sbrk size s)
mm_malloc-cases mem_sbrk base h size bs s sbrk start l m w =
    let (d, least, room, bound) = adjust-bounds size (omega (arith, m)) in
    rw (mm_malloc-after mem_sbrk size s l) (
      Malloced-fit mem_sbrk base h sbrk start (adjust size) (d, least, omega (arith, m, bound)) bs s
        (find_fit (adjust size) s) w (find_fit_lem h bs s (adjust size) w))
