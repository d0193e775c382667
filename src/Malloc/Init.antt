-- ===== src/Malloc/Init.antt =====
-- `mm_init` makes the first heap.
use sogang_university.Shared.{
  ℕ, ◌+◌, ◌%◌, ◌≡◌, refl, ap, ◌∙◌, arith, inr, Option, none, some, [], ◌∷◌,
}
use sogang_university.Malloc.{put, Heap, mm_init, chunk_size}
use sogang_university.Malloc.Blocks.{At}
use sogang_university.Malloc.Well.{Well, At-last}
use sogang_university.Malloc.Extend.{Sbrk, granted}

-- The words that `mm_init` writes, and the two globals before the heap grows.
abbrev prologue : Heap → Heap
prologue s = record s {
  mem = put (s.brk + 12) 1 (put (s.brk + 8) 9 (put (s.brk + 4) 9 (put s.brk 0 s.mem)));
  brk = s.brk + 16;
  heap_listp = s.brk + 8;
}

prologue-At : (s : Heap) → s.brk % 8 ≡ 0 → At (s.brk + 12) [] [] (prologue s)
prologue-At s e =
    let m' = (prologue s).mem in
    let last : m' (s.brk + 12) ≡ 1 = ground arith in
    record {
      listp = omega arith;
      room = omega arith;
      aligned = omega (arith, e);
      prologue_header = ground arith;
      prologue_footer = ground arith;
      before = tt;
      after = tt;
      epilogue = let at : s.brk + 12 + 0 + 0 ≡ s.brk + 12 = omega arith in rw at last;
      stop = omega arith;
      small = omega arith;
    }

-- From an end of the heap at a multiple of 8, when memlib, as it promises to be, gives the words of
-- the prologue and a chunk, `mm_init` succeeds and makes a well-formed heap of one free block, from
-- the chunk.
pub mm_init_lem :
    (mem_sbrk : ℕ → ℕ → Option ℕ) (s : Heap) (p q : ℕ)
    → Sbrk mem_sbrk s.brk
    → s.brk % 8 ≡ 0
    → mem_sbrk s.brk 16 ≡ some p
    → mem_sbrk (s.brk + 16) chunk_size ≡ some q
    → (s' : Heap) × (mm_init mem_sbrk s ≡ some s')
      × Well (s.brk + 12) (record { size = chunk_size; alloc = 0 } ∷ []) s'
unfolding mm_init
mm_init_lem mem_sbrk s p q sbrk aligned e f =
    let at = sbrk.contiguous s.brk 16 p (omega arith) e in
    let (s', g) =
      granted mem_sbrk s.brk (s.brk + 12) sbrk refl [] 1024 (prologue s) (prologue-At s aligned) tt
        (refl, omega arith, omega arith) q f in
    let after : Option ℕ × Heap → Option Heap =
      λ r. elim r.0 [ none ↦ none | some bp ↦ some (record r.1 { last_bp = r.1.heap_listp }) ] in
    (
      record s' { last_bp = s'.heap_listp },
      rw (mm_init, e ∙ ap some at) (ap after g.is),
      record {
        at =
            At-last (s.brk + 12) [] (record { size = chunk_size; alloc = 0 } ∷ []) s' s'.heap_listp
              g.well.at;
        apart = (inr refl, tt);
        last = record {
          passed = [];
          rest = record { size = chunk_size; alloc = 0 } ∷ [];
          all = refl;
          place = omega (arith, g.well.at.listp);
        };
      },
    )
