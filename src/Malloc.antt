-- ===== src/Malloc.antt =====
-- The allocator of 2024_1st/CSE4100/Project_04/mm.c, but for `mm_realloc`. Memory is a function from
-- the addresses of its words, of 4 bytes, and every access of the code is to a whole word; a pointer
-- is its address, and NULL is `none`. A word is an `unsigned int` of 32 bits, a `size_t` has 64.
pub mod Blocks
pub mod Write
pub mod Coalesce
pub mod Around
pub mod Join
pub mod Well
pub mod Free
pub mod Split
pub mod Place
pub mod Take
pub mod Extend
pub mod Init
pub mod Search
pub mod Fit
pub mod Calls
pub mod Keeps
pub mod Given
pub mod Realloc
mod Tests
use package.sogang_university.Shared.{
  ℕ, zero, suc, ◌+◌, ◌-◌, ◌*◌, ◌/◌, ◌%◌, ◌^◌, Bool, true, false, ◌==◌, ◌&&◌, not, ltb, leb,
  if◌then◌else◌, Option, none, some,
}

abbrev pub Memory : Type 0
Memory = ℕ → ℕ

-- size | alloc, for an `alloc` of 0 or 1
abbrev pub pack : ℕ → ℕ → ℕ
pack size alloc = if alloc == 0 then size else size + 1 - size % 2

-- PUT(p, val)
abbrev pub put : ℕ → ℕ → Memory → Memory
put p v m q = if p == q then v % 2 ^ 32 else m q

-- GET(p) & ~0x7 and GET(p) & 0x1
abbrev pub get_size : Memory → ℕ → ℕ
get_size m p = m p - m p % 8

abbrev pub get_alloc : Memory → ℕ → ℕ
get_alloc m p = m p % 2

abbrev pub hdrp : ℕ → ℕ
hdrp bp = bp - 4

abbrev pub ftrp : Memory → ℕ → ℕ
ftrp m bp = bp + get_size m (hdrp bp) - 8

abbrev pub next_blkp : Memory → ℕ → ℕ
next_blkp m bp = bp + get_size m (bp - 4)

abbrev pub prev_blkp : Memory → ℕ → ℕ
prev_blkp m bp = bp - get_size m (bp - 8)

-- The memory, the end of the heap, and the two globals.
pub record Heap : Type 0 where
  pub mem : Memory
  pub brk : ℕ
  pub heap_listp : ℕ
  pub last_bp : ℕ

abbrev pub chunk_size : ℕ
chunk_size = 2 ^ 12

-- The block that `bp` became, and the heap.
pub coalesce : ℕ → Heap → ℕ × Heap
coalesce bp s =
    let m = s.mem in
    let prev_alloc = get_alloc m (ftrp m (prev_blkp m bp)) in
    let next_alloc = get_alloc m (hdrp (next_blkp m bp)) in
    let size = get_size m (hdrp bp) in
    let next = size + get_size m (hdrp (next_blkp m bp)) in
    let m1 = put (hdrp bp) (pack next 0) m in
    let prev = size + get_size m (hdrp (prev_blkp m bp)) in
    let m2 = put (ftrp m bp) (pack prev 0) m in
    let both = size + (get_size m (hdrp (prev_blkp m bp)) + get_size m (ftrp m (next_blkp m bp))) in
    let m3 = put (hdrp (prev_blkp m2 bp)) (pack prev 0) m2 in
    let m4 = put (hdrp (prev_blkp m bp)) (pack both 0) m in
    let m5 = put (ftrp m4 (next_blkp m4 bp)) (pack both 0) m4 in
    if not (prev_alloc == 0) && not (next_alloc == 0)
    then (bp, record s { last_bp = bp })
    else if not (prev_alloc == 0)
    then (bp, record s { mem = put (ftrp m1 bp) (pack next 0) m1; last_bp = bp })
    else if not (next_alloc == 0)
    then (prev_blkp m3 bp, record s { mem = m3; last_bp = prev_blkp m3 bp })
    else (prev_blkp m5 bp, record s { mem = m5; last_bp = prev_blkp m5 bp })

-- `csize - adjusted_size` is taken modulo 2 ^ 64.
pub place : ℕ → ℕ → Heap → Heap
place bp adjusted_size s =
    let m = s.mem in
    let csize = get_size m (hdrp bp) in
    let rest = (csize + 2 ^ 64 - adjusted_size) % 2 ^ 64 in
    let m1 = put (hdrp bp) (pack adjusted_size 1) m in
    let m2 = put (ftrp m1 bp) (pack adjusted_size 1) m1 in
    let bp' = next_blkp m2 bp in
    let m3 = put (hdrp bp') (pack rest 0) m2 in
    let whole = put (hdrp bp) (pack csize 1) m in
    if leb 16 rest
    then record s { mem = put (ftrp m3 bp') (pack rest 0) m3 }
    else record s { mem = put (ftrp whole bp) (pack csize 1) whole }

-- !GET_ALLOC(HDRP(bp)) && GET_SIZE(HDRP(bp)) >= adjusted_size
abbrev pub fits : Memory → ℕ → ℕ → Bool
fits m adjusted_size bp = get_alloc m (hdrp bp) == 0 && leb adjusted_size (get_size m (hdrp bp))

-- The first loop of `find_fit`, at `bp`. Out of fuel it finds nothing.
pub fit_after : ℕ → Memory → ℕ → ℕ → Option ℕ
fit_after zero m size bp = none
fit_after (suc fuel) m size bp =
    let rest = fit_after fuel m size (next_blkp m bp) in
    if get_size m (hdrp bp) == 0 then none else if fits m size bp then some bp else rest

-- The second loop, up to `last`.
pub fit_before : ℕ → Memory → ℕ → ℕ → ℕ → Option ℕ
fit_before zero m size last bp = none
fit_before (suc fuel) m size last bp =
    let bp' = next_blkp m bp in
    let rest = fit_before fuel m size last bp' in
    if ltb bp last then if fits m size bp' then some bp' else rest else none

-- `find_fit`. Each round of a loop passes a block, and the heap has fewer than `brk` of them.
pub find_fit : ℕ → Heap → Option ℕ × Heap
unfolding fit_after fit_before
find_fit size s =
    let m = s.mem in
    elim (fit_after s.brk m size (next_blkp m s.last_bp)) [
      | some bp ↦ (some bp, record s { last_bp = bp })
      | none ↦ elim (fit_before s.brk m size s.last_bp s.heap_listp) [
        | some bp ↦ (some bp, record s { last_bp = bp })
        | none ↦ (none, s)
      ]
    ]

pub mm_free : ℕ → Heap → Heap
unfolding coalesce
mm_free bp s =
    let size = get_size s.mem (hdrp bp) in
    let m1 = put (hdrp bp) (pack size 0) s.mem in
    (coalesce bp (record s { mem = put (ftrp m1 bp) (pack size 0) m1 })).1

-- The size of the block for a request of so many bytes.
abbrev pub adjust : ℕ → ℕ
adjust size = if leb size 8 then 16 else 8 * ((size + 8 + 7) % 2 ^ 64 / 8)

-- MAX(asize, CHUNKSIZE)
abbrev pub larger : ℕ → ℕ
larger asize = if ltb chunk_size asize then asize else chunk_size

-- `place`, and `last_bp = bp`.
abbrev pub take_block : ℕ → ℕ → Heap → Option ℕ × Heap
take_block bp asize s = (some bp, record (place bp asize s) { last_bp = bp })

-- An even number of words, in bytes.
abbrev pub even_bytes : ℕ → ℕ
even_bytes words = if words % 2 == 0 then words * 4 else (words + 1) * 4

-- What memlib's `mem_sbrk` returns, at the end of the heap, for so many bytes: where they start, or
-- `none` for -1.
module _ (mem_sbrk : ℕ → ℕ → Option ℕ) where
  pub extend_heap : ℕ → Heap → Option ℕ × Heap
  unfolding coalesce
  extend_heap words s =
      let size = even_bytes words in
      elim (mem_sbrk s.brk size) [
        | none ↦ (none, s)
        | some bp ↦
            let m1 = put (hdrp bp) (pack size 0) s.mem in
            let m2 = put (ftrp m1 bp) (pack size 0) m1 in
            let m3 = put (hdrp (next_blkp m2 bp)) (pack 0 1) m2 in
            let (bp', s') = coalesce bp (record s { mem = m3; brk = bp + size }) in (some bp', s')
      ]

  -- `none` for -1.
  pub mm_init : Heap → Option Heap
  unfolding extend_heap
  mm_init s = elim (mem_sbrk s.brk 16) [
    | none ↦ none
    | some p ↦
        let m1 = put p 0 s.mem in
        let m2 = put (p + 4) (pack 8 1) m1 in
        let m3 = put (p + 8) (pack 8 1) m2 in
        let m4 = put (p + 12) (pack 0 1) m3 in
        let (bp, s') =
          extend_heap (chunk_size / 4) (record s { mem = m4; brk = p + 16; heap_listp = p + 8 }) in
        elim bp [ none ↦ none | some bp' ↦ some (record s' { last_bp = s'.heap_listp }) ]
  ]

  pub mm_malloc : ℕ → Heap → Option ℕ × Heap
  unfolding find_fit extend_heap place
  mm_malloc size s =
      let asize = adjust size in
      let (bp, s') = find_fit asize s in
      let (new, s'') = extend_heap (larger asize / 4) s' in
      let grown : Option ℕ × Heap = elim new [
        | none ↦ (none, s'')
        | some bp' ↦ take_block bp' asize s''
      ] in
      let found : Option ℕ × Heap = elim bp [ none ↦ grown | some bp' ↦ take_block bp' asize s' ] in
      if size == 0 then (none, s) else found
