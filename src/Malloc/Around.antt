-- ===== src/Malloc/Around.antt =====
-- The words around a block, as `coalesce` reads them, and its four branches there.
use sogang_university.Shared.{
  ℕ, ◌+◌, ◌-◌, ◌%◌, ◌^◌, ◌≤◌, ◌<◌, ◌≡◌, arith, ◌==◌, if◌then◌else◌, List, [], ◌∷◌,
}
use mathlib.Core.Path.{subst}
use sogang_university.Malloc.{Memory, put, Heap, coalesce}
use sogang_university.Malloc.Blocks.{Block, total, IsBlock, At, At-next}
use sogang_university.Malloc.Coalesce.{coalesce_alone, coalesce_next, coalesce_prev, coalesce_both}

-- The bit and the size of the next block, or of the end.
abbrev pub next_bit : List Block → ℕ
next_bit [] = 1
next_bit (b ∷ bs) = b.alloc

abbrev pub next_size : List Block → ℕ
next_size [] = 0
next_size (b ∷ bs) = b.size

-- The size of the block before, or of the one before the first.
abbrev pub prev_size : List Block → ℕ
prev_size [] = 8
prev_size (b ∷ bs) = b.size

-- The size of a free block that begins a list, 0 if there is none, and the list without it.
abbrev pub free_size : List Block → ℕ
free_size [] = 0
free_size (b ∷ bs) = if b.alloc == 0 then b.size else 0

abbrev pub drop_free : List Block → List Block
drop_free [] = []
drop_free (b ∷ bs) = if b.alloc == 0 then bs else b ∷ bs

-- What is known of the words around a place.
pub record Next (m : Memory) (p : ℕ) (bs : List Block) : Type 0 where
  pub header : m p ≡ next_size bs + next_bit bs
  pub footer : next_bit bs ≡ 0 → m (p + next_size bs - 4) ≡ next_size bs
  pub whole : next_size bs % 8 ≡ 0
  pub bit : next_bit bs < 2
  pub within : next_size bs ≤ total bs

pub At-Next : (h : ℕ) (ls rs : List Block) (s : Heap) → At h ls rs s → Next s.mem (h + total ls) rs
At-Next h ls [] s k = record {
  header =
      let same : h + total ls + 0 ≡ h + total ls = omega arith in
      subst (λ p. s.mem p ≡ 1) same k.epilogue;
  footer = λ e. absurd (omega arith);
  whole = omega arith;
  bit = omega arith;
  within = omega arith;
}
At-Next h ls (b ∷ rs) s k =
    let here = k.after.0 in
    record {
      header = here.header;
      footer = λ e. omega (arith, here.footer);
      whole = here.whole;
      bit = here.bit;
      within = omega arith;
    }

pub record Prev (m : Memory) (p : ℕ) (bs : List Block) : Type 0 where
  pub footer : m (p - 4) ≡ prev_size bs + next_bit bs
  pub header : m (p - prev_size bs) ≡ prev_size bs + next_bit bs
  pub whole : prev_size bs % 8 ≡ 0
  pub bit : next_bit bs < 2
  pub least : 8 ≤ prev_size bs
  pub room : prev_size bs + 4 ≤ p
  pub within : prev_size bs ≤ total bs + 8

pub At-Prev : (h : ℕ) (ls rs : List Block) (s : Heap) → At h ls rs s → Prev s.mem (h + total ls) ls
At-Prev h [] rs s k =
    let same : h + 0 ≡ h = omega arith in
    rw same (record {
      footer = k.prologue_footer;
      header = k.prologue_header;
      whole = omega arith;
      bit = omega arith;
      least = omega arith;
      room = omega (arith, k.room, k.aligned);
      within = omega arith;
    })
At-Prev h (b ∷ ls) rs s k =
    let here = k.before.0 in
    let place : h + (b.size + total ls) - 4 ≡ h + total ls + b.size - 4 = omega arith in
    let place' : h + (b.size + total ls) - b.size ≡ h + total ls = omega arith in
    record {
      footer = rw place here.footer;
      header = rw place' here.header;
      whole = here.whole;
      bit = here.bit;
      least = omega (arith, here.least);
      room = omega (arith, k.room);
      within = omega arith;
    }

module _ (h : ℕ) (ls : List Block) (c : Block) (rs : List Block) (s : Heap) (k : At h ls (c ∷ rs) s)
    (free : c.alloc ≡ 0) where
  abbrev bp : ℕ
  bp = h + total ls + 4

  n : Next s.mem (h + total (c ∷ ls)) rs
  n = At-Next h (c ∷ ls) rs s (At-next h ls c rs s k)

  p : Prev s.mem (h + total ls) ls
  p = At-Prev h ls (c ∷ rs) s k

  b : IsBlock s.mem (h + total ls) c
  b = k.after.0

  here : s.mem (bp - 4) ≡ c.size
  here = let place : bp - 4 ≡ h + total ls = omega arith in rw place (omega (arith, b.header, free))

  next : s.mem (bp + c.size - 4) ≡ next_size rs + next_bit rs
  next =
      let place : h + total (c ∷ ls) ≡ bp + c.size - 4 = omega arith in
      subst (λ q. s.mem q ≡ next_size rs + next_bit rs) place n.header

  next_end : next_bit rs ≡ 0 → s.mem (bp + c.size + next_size rs - 8) ≡ next_size rs
  next_end e =
      let place : h + total (c ∷ ls) + next_size rs - 4 ≡ bp + c.size + next_size rs - 8 =
        omega (arith, b.least) in
      subst (λ q. s.mem q ≡ next_size rs) place (n.footer e)

  prev : s.mem (bp - 8) ≡ prev_size ls + next_bit ls
  prev = let place : bp - 8 ≡ h + total ls - 4 = omega arith in rw place p.footer

  prev_start : s.mem (bp - prev_size ls - 4) ≡ prev_size ls + next_bit ls
  prev_start =
      let place : bp - prev_size ls - 4 ≡ h + total ls - prev_size ls = omega arith in
      rw place p.header

  whole :
      (c.size % 8 ≡ 0)
      × (next_size rs % 8 ≡ 0)
      × (prev_size ls % 8 ≡ 0)
      × (next_bit rs < 2)
      × (next_bit ls < 2)
  whole = (b.whole, n.whole, p.whole, n.bit, p.bit)

  least : (16 ≤ c.size) × (8 ≤ prev_size ls) × (prev_size ls + 8 ≤ bp)
  least = (b.least, p.least, omega (arith, p.room))

  small : c.size + prev_size ls + next_size rs < 2 ^ 32
  small = omega (arith, k.stop, k.small, p.within, n.within)

  pub alone_lem :
      next_bit rs ≡ 1 → next_bit ls ≡ 1 → coalesce bp s ≡ (bp, record s { last_bp = bp })
  alone_lem =
      coalesce_alone s bp c.size (next_size rs) (next_bit rs) (prev_size ls) (next_bit ls) here next
        next_end prev prev_start whole least small

  pub next_lem :
      next_bit rs ≡ 0
      → next_bit ls ≡ 1
      → coalesce bp s ≡ (
        bp,
        record s {
          mem =
              put
                (bp + (c.size + next_size rs) - 8)
                (c.size + next_size rs)
                (put (bp - 4) (c.size + next_size rs) s.mem);
          last_bp = bp;
        },
      )
  next_lem =
      coalesce_next s bp c.size (next_size rs) (next_bit rs) (prev_size ls) (next_bit ls) here next
        next_end prev prev_start whole least small

  pub prev_lem :
      next_bit rs ≡ 1
      → next_bit ls ≡ 0
      → coalesce bp s ≡ (
        bp - prev_size ls,
        record s {
          mem =
              put
                (bp - prev_size ls - 4)
                (c.size + prev_size ls)
                (put (bp + c.size - 8) (c.size + prev_size ls) s.mem);
          last_bp = bp - prev_size ls;
        },
      )
  prev_lem =
      coalesce_prev s bp c.size (next_size rs) (next_bit rs) (prev_size ls) (next_bit ls) here next
        next_end prev prev_start whole least small

  pub both_lem :
      next_bit rs ≡ 0
      → next_bit ls ≡ 0
      → coalesce bp s ≡ (
        bp - prev_size ls,
        record s {
          mem =
              put
                (bp + c.size + next_size rs - 8)
                (c.size + (prev_size ls + next_size rs))
                (put (bp - prev_size ls - 4) (c.size + (prev_size ls + next_size rs)) s.mem);
          last_bp = bp - prev_size ls;
        },
      )
  both_lem =
      coalesce_both s bp c.size (next_size rs) (next_bit rs) (prev_size ls) (next_bit ls) here next
        next_end prev prev_start whole least small
