-- ===== src/Malloc/Extend.antt =====
-- `extend_heap` and `mm_init`: the heap grows by a free block.
use sogang_university.Shared.{
  ℕ, ◌+◌, ◌-◌, ◌%◌, ◌^◌, ◌≤◌, ◌<◌, ◌≡◌, refl, ap, ◌∙◌, arith, inl, Option, none, some, List, [],
  ◌∷◌,
}
use sogang_university.Malloc.{Memory, put, get_size, hdrp, Heap, coalesce, extend_heap, even_bytes}
use sogang_university.Malloc.Blocks.{Block, total, At, Before-Agree, put_self, put_ne}
use sogang_university.Malloc.Around.{free_size, drop_free, At-Prev}
use sogang_university.Malloc.Well.{rev_onto, Apart, Well, drop_free-Apart}
use sogang_university.Malloc.Free.{coalesce_lem, Joined-Well}

-- What memlib promises of a request for less than 2 ^ 31 bytes, its `mem_sbrk` having an `int`: the
-- bytes begin where the heap ended, and the heap, which begins at `base`, stays small.
pub record Sbrk (mem_sbrk : ℕ → ℕ → Option ℕ) (base : ℕ) : Type 0 where
  pub contiguous : (brk n p : ℕ) → n < 2 ^ 31 → mem_sbrk brk n ≡ some p → p ≡ brk
  pub bounded : (brk n p : ℕ) → n < 2 ^ 31 → mem_sbrk brk n ≡ some p → brk + n < base + 2 ^ 32

-- The heap with a free block of `size` bytes at its end, before it is joined.
abbrev grown : ℕ → Heap → Heap
grown size s = record s {
  mem = put (s.brk + size - 4) 1 (put (s.brk + size - 8) size (put (s.brk - 4) size s.mem));
  brk = s.brk + size;
}

grown-keep :
    (size : ℕ) (s : Heap) → 16 ≤ size → (q : ℕ) → q < s.brk - 4 → (grown size s).mem q ≡ s.mem q
grown-keep size s least q l = ground (arith, l, least)

grown-At :
    (h : ℕ) (ls : List Block) (s : Heap) (size : ℕ)
    → At h ls [] s
    → (size % 8 ≡ 0) × (16 ≤ size)
    → s.brk + size + 4 < h + 2 ^ 32
    → At h ls (record { size = size; alloc = 0 } ∷ []) (grown size s)
grown-At h ls s size k (whole, least) small =
    let m' = (grown size s).mem in
    record {
      listp = k.listp;
      room = k.room;
      aligned = k.aligned;
      prologue_header = keep (h - 8) (omega (arith, k.stop, k.room)) ∙ k.prologue_header;
      prologue_footer = keep (h - 4) (omega (arith, k.stop, k.room)) ∙ k.prologue_footer;
      before = Before-Agree s.mem m' h ls (λ q l t. keep q (omega (arith, t, k.stop))) k.before;
      after = (
        record {
          header = header;
          footer = footer;
          whole = whole;
          least = least;
          bit = omega arith;
        },
        tt,
      );
      epilogue = epilogue;
      stop = omega (arith, k.stop);
      small = small;
    }
  where
    keep : (q : ℕ) → q < s.brk - 4 → (grown size s).mem q ≡ s.mem q
    keep = grown-keep size s least

    at : s.brk - 4 ≡ h + total ls
    at = omega (arith, k.stop)

    header : (grown size s).mem (h + total ls) ≡ size + 0
    header = ground (arith, k.stop, k.small, small, least, at)

    footer : (grown size s).mem (h + total ls + size - 4) ≡ size + 0
    footer = ground (arith, k.stop, k.small, small, least)

    epilogue : (grown size s).mem (h + total ls + (size + 0)) ≡ 1
    epilogue = ground (arith, k.stop, k.small, small, least)

extend_heap-grown :
    (mem_sbrk : ℕ → ℕ → Option ℕ) (words : ℕ) (s : Heap)
    → mem_sbrk s.brk (even_bytes words) ≡ some s.brk
    → 4 ≤ s.brk
    → 16 ≤ even_bytes words
    → even_bytes words % 8 ≡ 0
    → even_bytes words < 2 ^ 32
    → extend_heap mem_sbrk words s ≡ (
      some (coalesce s.brk (grown (even_bytes words) s)).0,
      (coalesce s.brk (grown (even_bytes words) s)).1,
    )
unfolding extend_heap
extend_heap-grown mem_sbrk words s e room least whole small =
    let size = even_bytes words in
    let bp = s.brk in
    let m1 : Memory = put (hdrp bp) size s.mem in
    let m2 : Memory = put (bp + size - 8) size m1 in
    let f1 : get_size m1 (bp - 4) ≡ size =
      let f = put_self (bp - 4) size s.mem small in omega (arith, f, whole) in
    let f2 : get_size m2 (bp - 4) ≡ size =
      let f = put_ne (bp + size - 8) size (bp - 4) m1 (omega (arith, least, room)) in rw f f1 in
    rw (extend_heap, e, f1, f2) refl

pub extend_heap-none :
    (mem_sbrk : ℕ → ℕ → Option ℕ) (words : ℕ) (s : Heap)
    → mem_sbrk s.brk (even_bytes words) ≡ none
    → extend_heap mem_sbrk words s ≡ (none, s)
unfolding extend_heap
extend_heap-none mem_sbrk words s e = rw (extend_heap, e) refl

-- What `extend_heap` makes of a heap `s` of blocks `ls`, the last first, for so many bytes: memlib
-- refuses them and nothing changes, or there is a free block at its end, joined with the last one if that is free.
pub data Extended (mem_sbrk : ℕ → ℕ → Option ℕ) (h : ℕ) (ls : List Block) (size : ℕ) (s : Heap)
    : Option ℕ × Heap → Type 0 where
  refused : mem_sbrk s.brk size ≡ none → Extended mem_sbrk h ls size s (none, s)
  extended :
      (s' : Heap)
      → Well h
          (rev_onto (drop_free ls) (record { size = free_size ls + size + 0; alloc = 0 } ∷ []))
          s'
      → ((q : ℕ) → q < h + total (drop_free ls) → s'.mem q ≡ s.mem q)
      → Extended mem_sbrk h ls size s (some (h + total (drop_free ls) + 4), s')

total-drop_free-le : (bs : List Block) → total (drop_free bs) ≤ total bs
total-drop_free-le [] = omega arith
total-drop_free-le (b ∷ bs) = ground arith

module _ (mem_sbrk : ℕ → ℕ → Option ℕ) (base h : ℕ) (sbrk : Sbrk mem_sbrk base)
    (start : base + 12 ≡ h) (ls : List Block) (words : ℕ) (s : Heap) (k : At h ls [] s)
    (apart : Apart ls)
    (size : (even_bytes words % 8 ≡ 0)
      × (16 ≤ even_bytes words)
      × (even_bytes words < 2 ^ 31)) where
  -- The heap after an extension.
  pub record Granted (s' : Heap) : Type 0 where
    pub well :
        Well h
          (rev_onto
            (drop_free ls)
            (record { size = free_size ls + even_bytes words + 0; alloc = 0 } ∷ []))
          s'
    pub same : (q : ℕ) → q < h + total (drop_free ls) → s'.mem q ≡ s.mem q
    pub is : extend_heap mem_sbrk words s ≡ (some (h + total (drop_free ls) + 4), s')

  pub granted : (p : ℕ) → mem_sbrk s.brk (even_bytes words) ≡ some p → (s' : Heap) × Granted s'
  granted p e =
      let at = sbrk.contiguous s.brk (even_bytes words) p size.2 e in
      let bound = sbrk.bounded s.brk (even_bytes words) p size.2 e in
      let s1 = grown (even_bytes words) s in
      let k1 =
        grown-At h ls s (even_bytes words) k (size.0, size.1) (omega (arith, bound, start)) in
      let c : Block = record { size = even_bytes words; alloc = 0 } in
      let done = coalesce_lem h ls c [] s1 k1 refl in
      let bp : s.brk ≡ h + total ls + 4 = omega (arith, k.stop) in
      let r = coalesce (h + total ls + 4) s1 in
      let eq : extend_heap mem_sbrk words s ≡ (some (h + total (drop_free ls) + 4), r.1) =
        extend_heap-grown mem_sbrk words s (e ∙ ap some at) (omega (arith, bp, k.room)) size.1
          size.0 (omega (arith, size))
        ∙ ap (λ z. (some (coalesce z s1).0, (coalesce z s1).1)) bp
        ∙ ap (λ z. (some z, r.1)) done.pointer in
      (
        r.1,
        record {
          well =
              Joined-Well h (drop_free ls) (free_size ls + even_bytes words + 0) [] s1 r done
                (drop_free-Apart ls (At-Prev h ls [] s k).bit apart) (tt, refl);
          same = λ q l.
              done.same q (inl l)
              ∙ grown-keep (even_bytes words) s size.1 q
                  (omega (arith, l, total-drop_free-le ls, k.stop));
          is = eq;
        },
      )

  Extended-cases :
      (r : Option ℕ)
      → mem_sbrk s.brk (even_bytes words) ≡ r
      → Extended mem_sbrk h ls (even_bytes words) s (extend_heap mem_sbrk words s)
  Extended-cases none e = rw (extend_heap-none mem_sbrk words s e) (refused e)
  Extended-cases (some p) e = let (s', g) = granted p e in rw g.is (extended s' g.well g.same)

  pub extend_heap_lem : Extended mem_sbrk h ls (even_bytes words) s (extend_heap mem_sbrk words s)
  extend_heap_lem = Extended-cases (mem_sbrk s.brk (even_bytes words)) refl
