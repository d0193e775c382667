-- ===== src/Malloc/Realloc.antt =====
-- `mm_realloc`, with the C library's `memmove` as a parameter.
use sogang_university.Shared.{
  ℕ, ◌+◌, ◌-◌, ◌/◌, ◌%◌, ◌^◌, ◌≤◌, ◌<◌, ◌≡◌, refl, ◌∙◌, arith, Bool, true, false, ◌==◌, ◌&&◌, leb,
  ltb, not, if◌then◌else◌, Option, none, some, List, [], ◌∷◌,
}
use mathlib.Core.Path.{subst}
use sogang_university.Malloc.{
  Memory, pack, put, get_size, get_alloc, hdrp, ftrp, next_blkp, Heap, adjust, larger, extend_heap,
  mm_malloc, mm_free,
}
use sogang_university.Malloc.Blocks.{
  Block, total, IsBlock, At, get_size_word, get_alloc_word, put_self, pack_taken,
}
use sogang_university.Malloc.Write.{At-write, put_two, put_two_ne}

-- new_size, for a size that is not 0. BUFFER is 2 ^ 7.
abbrev pub buffered : ℕ → ℕ
buffered size = (adjust size + 2 ^ 7) % 2 ^ 64

-- blkBUF < 0, the difference of two `size_t` taken as an `int`.
abbrev pub too_small : ℕ → ℕ → Bool
too_small csize new_size = leb (2 ^ 31) ((csize + 2 ^ 64 - new_size) % 2 ^ 64 % 2 ^ 32)

-- The header and the footer of a block are written.
abbrev pub mark : ℕ → ℕ → Heap → Heap
mark bp total_size s =
    let m1 = put (hdrp bp) (pack total_size 1) s.mem in
    record s { mem = put (ftrp m1 bp) (pack total_size 1) m1 }

-- `memmove to from n`, on the memory.
module _ (mem_sbrk : ℕ → ℕ → Option ℕ) (memmove : ℕ → ℕ → ℕ → Memory → Memory) where
  -- The block goes to another place.
  abbrev pub move_block : ℕ → ℕ → ℕ → Option ℕ × Heap → Option ℕ × Heap
  move_block bp size new_size r = elim r.0 [
    | none ↦ (none, r.1)
    | some bp' ↦
        let room = get_size r.1.mem (hdrp bp) - 4 in
        let copy_size = if ltb size room then size else room in
        (some bp', mm_free bp (record r.1 { mem = memmove bp' bp copy_size r.1.mem }))
  ]

  -- The heap grows, and the block with it.
  abbrev pub grow_block : ℕ → ℕ → Option ℕ × Heap → Option ℕ × Heap
  grow_block bp total_size r = elim r.0 [
    | none ↦ (none, r.1)
    | some bp' ↦ (some bp, mark bp total_size r.1)
  ]

  -- To free NULL has no meaning in C, and does nothing here.
  pub mm_realloc : Option ℕ → ℕ → Heap → Option ℕ × Heap
  unfolding extend_heap mm_malloc mm_free
  mm_realloc none size s = if size == 0 then (none, s) else mm_malloc mem_sbrk size s
  mm_realloc (some bp) size s =
      let m = s.mem in
      let new_size = buffered size in
      let next_size = get_size m (hdrp (next_blkp m bp)) in
      let total_size = get_size m (hdrp bp) + next_size in
      let extendsize = larger (new_size - total_size) in
      let next_taken = not (get_alloc m (hdrp (next_blkp m bp)) == 0) && not (next_size == 0) in
      let moved = move_block bp size new_size (mm_malloc mem_sbrk new_size s) in
      let grown =
        grow_block bp (total_size + extendsize) (extend_heap mem_sbrk (extendsize / 4) s) in
      if size == 0
      then (none, mm_free bp s)
      else if not (too_small (get_size m (hdrp bp)) new_size)
      then (some bp, s)
      else if next_taken
      then moved
      else if leb new_size total_size
      then (some bp, mark bp total_size s)
      else grown

buffered-bounds : (size : ℕ) → size < 2 ^ 30 → (size + 8 ≤ buffered size) × (buffered size < 2 ^ 31)
buffered-bounds size m = (ground (arith, m), ground (arith, m))

-- The heap when two blocks of `all` bytes together have become one.
abbrev absorbed : ℕ → ℕ → Heap → Heap
absorbed bp all s = record s { mem = put (bp + all - 8) (all + 1) (put (bp - 4) (all + 1) s.mem) }

mm_realloc-absorbed :
    (mem_sbrk : ℕ → ℕ → Option ℕ) (memmove : ℕ → ℕ → ℕ → Memory → Memory) (h size : ℕ)
    (ls : List Block) (c d : Block) (rs : List Block) (s : Heap)
    → 0 < size
    → size < 2 ^ 30
    → At h ls (c ∷ d ∷ rs) s
    → d.alloc ≡ 0
    → c.size < buffered size
    → buffered size ≤ c.size + d.size
    → mm_realloc mem_sbrk memmove (some (h + total ls + 4)) size s
      ≡ (some (h + total ls + 4), absorbed (h + total ls + 4) (c.size + d.size) s)
unfolding mm_realloc
mm_realloc-absorbed mem_sbrk memmove h size ls c d rs s l m k free less enough =
    let bp = h + total ls + 4 in
    let here = k.after.0 in
    let next = k.after.1.0 in
    let start : bp - 4 ≡ h + total ls = omega arith in
    let csize : get_size s.mem (hdrp bp) ≡ c.size =
      rw start
        (get_size_word s.mem (h + total ls) c.size c.alloc here.header here.whole here.bit) in
    let there : hdrp (next_blkp s.mem bp) ≡ h + total ls + c.size = omega (arith, csize) in
    let dsize : get_size s.mem (hdrp (next_blkp s.mem bp)) ≡ d.size = rw there (
      get_size_word s.mem (h + total ls + c.size) d.size d.alloc next.header next.whole next.bit) in
    let dfree : get_alloc s.mem (hdrp (next_blkp s.mem bp)) ≡ 0 = rw there (
      get_alloc_word s.mem (h + total ls + c.size) d.size d.alloc next.header next.whole next.bit
      ∙ free) in
    let big = (buffered-bounds size m).1 in
    let small : too_small c.size (buffered size) ≡ true = ground (arith, less, big) in
    let some_size : (size == 0) ≡ false = ground (arith, l) in
    let fits : leb (buffered size) (c.size + d.size) ≡ true = ground (arith, enough) in
    let all = c.size + d.size in
    let one = pack_taken all (omega (arith, here.whole, next.whole)) in
    let limit : all + 1 < 2 ^ 32 = omega (arith, k.stop, k.small) in
    let m1 : Memory = put (hdrp bp) (all + 1) s.mem in
    let footer : ftrp m1 bp ≡ bp + all - 8 =
      let e = put_self (hdrp bp) (all + 1) s.mem limit in
      omega (arith, e, here.whole, next.whole) in
    rw (mm_realloc, some_size, dfree, dsize, csize, small, fits, one, footer) refl

absorbed-At :
    (h : ℕ) (ls : List Block) (c d : Block) (rs : List Block) (s : Heap)
    → At h ls (c ∷ d ∷ rs) s
    → At h ls
        (record { size = c.size + d.size; alloc = 1 } ∷ rs)
        (absorbed (h + total ls + 4) (c.size + d.size) s)
absorbed-At h ls c d rs s k =
    let bp = h + total ls + 4 in
    let all = c.size + d.size in
    let here = k.after.0 in
    let next = k.after.1.0 in
    let joined : Block = record { size = all; alloc = 1 } in
    let m2 = (absorbed bp all s).mem in
    let (at_end, at_start) =
      put_two (bp + all - 8) (bp - 4) (all + 1) s.mem (omega (arith, k.stop, k.small)) in
    let start : bp - 4 ≡ h + total ls = omega arith in
    let end : bp + all - 8 ≡ h + total ls + all - 4 = omega arith in
    let block : IsBlock m2 (h + total ls) joined = record {
      header = subst (λ z. m2 z ≡ all + 1) start at_start;
      footer = subst (λ z. m2 z ≡ all + 1) end at_end;
      whole = omega (arith, here.whole, next.whole);
      least = omega (arith, here.least);
      bit = omega arith;
    } in
    At-write h ls (c ∷ d ∷ []) (joined ∷ []) rs s m2 s.last_bp k (omega arith) (block, tt)
      (λ z out.
        put_two_ne (bp + all - 8) (bp - 4) (all + 1) s.mem z
          (λ e. ground (arith, e, out, here.least)) (λ e. ground (arith, e, out, here.least)))

-- On a heap of whole blocks, for a request of 1 to 2 ^ 30 - 1 bytes, where the block at `bp` has no
-- room for the request and the spare bytes, and the next block is free and has what is missing:
-- `mm_realloc` gives `bp`, the two blocks have become one taken block with room for the request, a
-- header and a footer, and a word of the old block after its header keeps what it held.
pub mm_realloc_lem :
    (mem_sbrk : ℕ → ℕ → Option ℕ) (memmove : ℕ → ℕ → ℕ → Memory → Memory) (h size : ℕ)
    (ls : List Block) (c d : Block) (rs : List Block) (s : Heap) (q : ℕ)
    → 0 < size
    → size < 2 ^ 30
    → At h ls (c ∷ d ∷ rs) s
    → d.alloc ≡ 0
    → c.size < buffered size
    → buffered size ≤ c.size + d.size
    → h + total ls < q
    → q < h + total ls + c.size
    → (mm_realloc mem_sbrk memmove (some (h + total ls + 4)) size s).0 ≡ some (h + total ls + 4)
      × At h ls
          (record { size = c.size + d.size; alloc = 1 } ∷ rs)
          (mm_realloc mem_sbrk memmove (some (h + total ls + 4)) size s).1
      × (size + 8 ≤ c.size + d.size)
      × ((mm_realloc mem_sbrk memmove (some (h + total ls + 4)) size s).1.mem q ≡ s.mem q)
mm_realloc_lem mem_sbrk memmove h size ls c d rs s q l m k free less enough from to =
    let bp = h + total ls + 4 in
    let all = c.size + d.size in
    rw (mm_realloc-absorbed mem_sbrk memmove h size ls c d rs s l m k free less enough) (
      refl,
      absorbed-At h ls c d rs s k,
      omega (arith, enough, (buffered-bounds size m).0),
      put_two_ne (bp + all - 8) (bp - 4) (all + 1) s.mem q
          (λ e. let least = k.after.1.0.least in omega (arith, e, from, to, least))
          (λ e. omega (arith, e, from)),
    )
