-- ===== src/Malloc/Free.antt =====
-- `coalesce` and `mm_free` on the list of blocks.
use sogang_university.Shared.{
  ℕ, ◌+◌, ◌-◌, ◌%◌, ◌^◌, ◌≤◌, ◌<◌, ◌≡◌, ◌⊎◌, refl, ◌∙◌, arith, inl, inr, List, [], ◌∷◌,
}
use sogang_university.Malloc.{put, get_size, hdrp, ftrp, Heap, coalesce}
use sogang_university.Malloc.Blocks.{Block, total, At, At-next, get_size_word, put_self}
use sogang_university.Malloc.Write.{put_two_ne, At-write_block}
use sogang_university.Malloc.{mm_free}
use sogang_university.Malloc.Around.{next_bit, free_size, drop_free, At-Next, At-Prev}
use sogang_university.Malloc.Join.{Joined, join_alone, join_next, join_prev, join_both}
use sogang_university.Malloc.Well.{
  rev_onto, Apart, Well, At-to, At-from, Apart-to, Apart-from, Begins, free, kept, begins,
  free_size_kept, drop_free-Apart,
}

coalesce-begins :
    (h : ℕ) (ls : List Block) (c : Block) (rs : List Block) (s : Heap)
    → Begins ls
    → Begins rs
    → At h ls (c ∷ rs) s
    → c.alloc ≡ 0
    → Joined h
        (drop_free ls)
        (free_size ls + c.size + free_size rs)
        (drop_free rs)
        s
        (coalesce (h + total ls + 4) s)
coalesce-begins h ls c rs s (kept u e) (kept v f) k z =
    let size : free_size ls + c.size + free_size rs ≡ c.size =
      rw ((free_size_kept ls e).0, (free_size_kept rs f).0) (omega arith) in
    rw (size, (free_size_kept ls e).1, (free_size_kept rs f).1) (join_alone h ls c rs s k z f e)
coalesce-begins h ls c rs s (kept u e) (free d ds f) k z =
    let size : free_size ls + c.size + d.size ≡ c.size + d.size =
      rw (free_size_kept ls e).0 (omega arith) in
    rw (f, size, (free_size_kept ls e).1) (join_next h ls c d ds s k z f e)
coalesce-begins h ls c rs s (free a as' e) (kept v f) k z =
    let size : a.size + c.size + free_size rs ≡ c.size + a.size =
      rw (free_size_kept rs f).0 (omega arith) in
    rw (e, size, (free_size_kept rs f).1) (join_prev h a as' c rs s k z e f)
coalesce-begins h ls c rs s (free a as' e) (free d ds f) k z =
    let size : a.size + c.size + d.size ≡ c.size + (a.size + d.size) = omega arith in
    rw (e, f, size) (join_both h a as' c d ds s k z e f)

-- `coalesce` at a free block: it, and its free neighbours, become one block.
pub coalesce_lem :
    (h : ℕ) (ls : List Block) (c : Block) (rs : List Block) (s : Heap)
    → At h ls (c ∷ rs) s
    → c.alloc ≡ 0
    → Joined h
        (drop_free ls)
        (free_size ls + c.size + free_size rs)
        (drop_free rs)
        s
        (coalesce (h + total ls + 4) s)
coalesce_lem h ls c rs s k e =
    coalesce-begins h ls c rs s (begins ls (At-Prev h ls (c ∷ rs) s k).bit)
      (begins rs (At-Next h (c ∷ ls) rs s (At-next h ls c rs s k)).bit) k e

-- What `mm_free` calls `coalesce` on.
abbrev marked : ℕ → ℕ → Heap → Heap
marked bp size s = record s { mem = put (bp + size - 8) size (put (bp - 4) size s.mem) }

mm_free-marked :
    (bp size : ℕ) (s : Heap)
    → get_size s.mem (hdrp bp) ≡ size
    → size % 8 ≡ 0
    → size < 2 ^ 32
    → mm_free bp s ≡ (coalesce bp (marked bp size s)).1
unfolding mm_free
mm_free-marked bp size s e d l =
    let footer : ftrp (put (hdrp bp) size s.mem) bp ≡ bp + size - 8 =
      omega (arith, put_self (hdrp bp) size s.mem l) in
    rw (mm_free, e, footer) refl

pub Joined-Well :
    (h : ℕ) (ls : List Block) (size : ℕ) (rs : List Block) (s : Heap) (r : ℕ × Heap)
    → Joined h ls size rs s r
    → Apart ls × (next_bit ls ≡ 1)
    → Apart rs × (next_bit rs ≡ 1)
    → Well h (rev_onto ls (record { size = size; alloc = 0 } ∷ rs)) r.1
Joined-Well h ls size rs s r k (l, e) (m, f) =
    let b : Block = record { size = size; alloc = 0 } in
    record {
      at = At-from h ls (b ∷ rs) r.1 k.well;
      apart = Apart-from ls (b ∷ rs) l (inr f, m) (inl e);
      last = record { passed = b ∷ ls; rest = rs; all = refl; place = omega (arith, k.last) };
    }

total-drop_free : (bs : List Block) → total bs ≡ free_size bs + total (drop_free bs)
total-drop_free [] = refl
total-drop_free (b ∷ bs) = ground arith

-- The block that `c` becomes when it is freed.
abbrev pub merged : List Block → Block → List Block → Block
merged ls c rs = record { size = free_size ls + c.size + free_size rs; alloc = 0 }

-- When the block `c` of a well-formed heap is given to `mm_free`, one free block takes its place and
-- that of those of its neighbours that were free. The heap stays well-formed, with no two free blocks
-- next to each other, and a word outside the new block is not written.
pub mm_free_lem :
    (h : ℕ) (ls : List Block) (c : Block) (rs : List Block) (s : Heap) (q : ℕ)
    → Well h (rev_onto ls (c ∷ rs)) s
    → q < h + total (drop_free ls) ⊎ h + total (drop_free ls) + (merged ls c rs).size ≤ q
    → Well h
        (rev_onto (drop_free ls) (merged ls c rs ∷ drop_free rs))
        (mm_free (h + total ls + 4) s)
      × ((mm_free (h + total ls + 4) s).mem q ≡ s.mem q)
mm_free_lem h ls c rs s q w out =
    let k = At-to h ls (c ∷ rs) s w.at in
    let (l, r, j) = Apart-to ls (c ∷ rs) w.apart in
    let here = k.after.0 in
    let bp = h + total ls + 4 in
    let place : bp - 4 ≡ h + total ls = omega arith in
    let size : get_size s.mem (hdrp bp) ≡ c.size =
      rw place
        (get_size_word s.mem (h + total ls) c.size c.alloc here.header here.whole here.bit) in
    let small : c.size < 2 ^ 32 = omega (arith, k.stop, k.small) in
    let c' : Block = record { size = c.size; alloc = c.size - c.size } in
    let s1 = marked bp c.size s in
    let k1 : At h ls (c' ∷ rs) s1 =
      At-write_block h ls c rs s (bp - 4) (bp + c.size - 8) c.size k place
        (omega (arith, here.least)) (inl (omega arith)) in
    let done = coalesce_lem h ls c' rs s1 k1 (omega arith) in
    rw (mm_free-marked bp c.size s size here.whole small) (
      Joined-Well h (drop_free ls) (merged ls c rs).size (drop_free rs) s1 (coalesce bp s1) done
          (drop_free-Apart ls (At-Prev h ls (c ∷ rs) s k).bit l)
          (drop_free-Apart rs (At-Next h (c ∷ ls) rs s (At-next h ls c rs s k)).bit r.1),
      done.same q out
          ∙ put_two_ne (bp + c.size - 8) (bp - 4) c.size s.mem q
              (λ z. ground (arith, z, out, total-drop_free ls, here.least))
              (λ z. ground (arith, z, out, total-drop_free ls, here.least)),
    )
