-- ===== src/Malloc/Tests.antt =====
-- The allocator on a small heap.
use sogang_university.Shared.{
  ℕ, ◌+◌, ◌≤◌, ◌≡◌, refl, sym, ap, ◌∙◌, arith, inl, inr, Bool, Bool-cases, ◌==◌, ◌&&◌, ltb, leb,
  ◌-◌, if◌then◌else◌, Option, none, some, [], ◌∷◌,
}
use sogang_university.Malloc.{
  Memory, Heap, coalesce, place, fit_after, fit_before, find_fit, mm_init, mm_malloc, mm_free,
  chunk_size,
}
use sogang_university.Malloc.Blocks.{Block}
use sogang_university.Malloc.Well.{Well}
use sogang_university.Malloc.Free.{merged, mm_free_lem}
use sogang_university.Malloc.Extend.{Sbrk}
use sogang_university.Malloc.Init.{mm_init_lem}
use sogang_university.Malloc.Keeps.{mm_malloc-keeps}
use sogang_university.Malloc.Given.{Gives, mm_malloc_lem, mm_malloc-refused}

-- A memlib with 8192 bytes.
abbrev few_bytes : ℕ → ℕ → Option ℕ
few_bytes brk n = if leb (brk + n) 8192 then some brk else none

-- Where the bytes begin, or 0, and 1 for bytes.
abbrev start_of : Option ℕ → ℕ
start_of none = 0
start_of (some p) = p

abbrev count_of : Option ℕ → ℕ
count_of none = 0
count_of (some p) = 1

few_bytes-start : (brk n p : ℕ) → few_bytes brk n ≡ some p → (p ≡ brk) × (brk + n ≤ 8192)
few_bytes-start brk n p e =
    let given : Bool → Option ℕ = λ b. if b then some brk else none in
    elim (Bool-cases (leb (brk + n) 8192)) [
      | inl f ↦ (ap start_of (sym e ∙ ap given f), ground (arith, f))
      | inr f ↦
          let none_given = ap count_of (sym e ∙ ap given f) in absurd (omega (arith, none_given))
    ]

few_bytes-Sbrk : Sbrk few_bytes 16
few_bytes-Sbrk = record {
  contiguous = λ brk n p l e. (few_bytes-start brk n p e).0;
  bounded = λ brk n p l e. let f = few_bytes-start brk n p e in omega (arith, f);
}

-- A taken block of 32 bytes, and a free one.
abbrev taken : Block
taken = record { size = 32; alloc = 1 }

abbrev free : Block
free = record { size = 4064; alloc = 0 }

abbrev words : Memory
words q =
    if q == 20
    then 9
    else if q == 24
    then 9
    else if q == 28
    then 33
    else if q == 56
    then 33
    else if q == 60
    then 4064
    else if q == 4120
    then 4064
    else if q == 4124
    then 1
    else 0

abbrev two_blocks : Heap
two_blocks = record { mem = words; brk = 4128; heap_listp = 24; last_bp = 24 }

two_blocks-Well : Well 28 (taken ∷ free ∷ []) two_blocks
two_blocks-Well = record {
  at = record {
    listp = refl;
    room = omega arith;
    aligned = refl;
    prologue_header = refl;
    prologue_footer = refl;
    before = tt;
    after = (
      record { header = refl; footer = refl; whole = refl; least = omega arith; bit = omega arith },
      (
        record {
          header = refl;
          footer = refl;
          whole = refl;
          least = omega arith;
          bit = omega arith;
        },
        tt,
      ),
    );
    epilogue = refl;
    stop = refl;
    small = omega arith;
  };
  apart = (inl refl, (inr refl, tt));
  last = record { passed = []; rest = taken ∷ free ∷ []; all = refl; place = refl };
}

-- The taken block is freed, and joins the other.
mm_free_whole : (mm_free 32 two_blocks).mem 28 ≡ 4096
unfolding mm_free coalesce
mm_free_whole = refl

-- A request is put at the start of the free block.
mm_malloc_found : (mm_malloc few_bytes 100 two_blocks).0 ≡ some 64
unfolding mm_malloc find_fit fit_after fit_before place
mm_malloc_found = refl

mm_free_lem_example :
    Well 28 (merged [] taken (free ∷ []) ∷ []) (mm_free 32 two_blocks)
    × ((mm_free 32 two_blocks).mem 20 ≡ 9)
mm_free_lem_example =
    mm_free_lem 28 [] taken (free ∷ []) two_blocks 20 two_blocks-Well (inl (omega arith))

mm_malloc_lem_example :
    Gives few_bytes 28 (taken ∷ free ∷ []) 100 two_blocks (mm_malloc few_bytes 100 two_blocks)
mm_malloc_lem_example =
    mm_malloc_lem few_bytes 16 100 (taken ∷ free ∷ []) two_blocks few_bytes-Sbrk (omega arith)
      (omega arith) two_blocks-Well

mm_malloc-keeps_example : (mm_malloc few_bytes 100 two_blocks).1.mem 56 ≡ 33
mm_malloc-keeps_example =
    mm_malloc-keeps few_bytes 16 100 [] taken (free ∷ []) two_blocks 56 few_bytes-Sbrk (omega arith)
      (omega arith) two_blocks-Well refl (omega arith) (omega arith)

mm_malloc-refused_example : mm_malloc few_bytes 5000 two_blocks ≡ (none, two_blocks)
mm_malloc-refused_example =
    mm_malloc-refused few_bytes 28 5000 (taken ∷ free ∷ []) two_blocks (omega arith) (omega arith)
      two_blocks-Well (refl, (refl, tt)) refl

-- A heap before `mm_init`.
abbrev no_heap : Heap
no_heap = record { mem = λ q. 0; brk = 16; heap_listp = 0; last_bp = 0 }

-- A `memmove` of whole words.
abbrev move_words : ℕ → ℕ → ℕ → Memory → Memory
move_words to from n m q = if leb to q && ltb q (to + n) then m (from + (q - to)) else m q

mm_init_lem_example :
    (s' : Heap) × (mm_init few_bytes no_heap ≡ some s')
    × Well 28 (record { size = chunk_size; alloc = 0 } ∷ []) s'
mm_init_lem_example = mm_init_lem few_bytes no_heap 16 32 few_bytes-Sbrk refl refl refl
