-- ===== src/Malloc/Blocks.antt =====
-- A heap as a list of blocks, seen from one place in it: the blocks before it, the nearest first, and
-- those from it on.
use sogang_university.Shared.{
  ℕ, ◌+◌, ◌-◌, ◌%◌, ◌^◌, ◌≤◌, ◌<◌, ◌≡◌, ◌≢◌, refl, ◌∙◌, arith, List, [], ◌∷◌,
}
use mathlib.Core.Path.{subst}
use sogang_university.Malloc.{Memory, pack, put, get_size, get_alloc, Heap}

pub record Block : Type 0 where
  pub size : ℕ
  pub alloc : ℕ

-- What its header and its footer hold.
abbrev pub word : Block → ℕ
word b = b.size + b.alloc

abbrev pub total : List Block → ℕ
total [] = 0
total (b ∷ bs) = b.size + total bs

-- A block with its header at `h`.
pub record IsBlock (m : Memory) (h : ℕ) (b : Block) : Type 0 where
  pub header : m h ≡ word b
  pub footer : m (h + b.size - 4) ≡ word b
  pub whole : b.size % 8 ≡ 0
  pub least : 16 ≤ b.size
  pub bit : b.alloc < 2

-- The blocks from `h` on.
abbrev pub Tiles : Memory → ℕ → List Block → Type 0
Tiles m h [] = Unit
Tiles m h (b ∷ bs) = IsBlock m h b × Tiles m (h + b.size) bs

-- The blocks from `h` on, the last first.
abbrev pub Before : Memory → ℕ → List Block → Type 0
Before m h [] = Unit
Before m h (b ∷ ls) = IsBlock m (h + total ls) b × Before m h ls

-- The heap, with its first block at `h`: the block of 8 bytes before it, the blocks, and the header
-- of size 0 at the end.
pub record At (h : ℕ) (ls rs : List Block) (s : Heap) : Type 0 where
  pub listp : s.heap_listp + 4 ≡ h
  pub room : 8 ≤ h
  pub aligned : (h + 4) % 8 ≡ 0
  pub prologue_header : s.mem (h - 8) ≡ 9
  pub prologue_footer : s.mem (h - 4) ≡ 9
  pub before : Before s.mem h ls
  pub after : Tiles s.mem (h + total ls) rs
  pub epilogue : s.mem (h + total ls + total rs) ≡ 1
  pub stop : s.brk ≡ h + total ls + total rs + 4
  pub small : s.brk + 4 < h + 2 ^ 32

IsBlock-frame :
    (m m' : Memory) (h : ℕ) (b : Block)
    → m' h ≡ m h
    → m' (h + b.size - 4) ≡ m (h + b.size - 4)
    → IsBlock m h b
    → IsBlock m' h b
IsBlock-frame m m' h b e f k = record {
  header = e ∙ k.header;
  footer = f ∙ k.footer;
  whole = k.whole;
  least = k.least;
  bit = k.bit;
}

-- Memory that agrees on a range has the same blocks there.
abbrev pub Agree : Memory → Memory → ℕ → ℕ → Type 0
Agree m m' from to = (q : ℕ) → from ≤ q → q < to → m' q ≡ m q

pub Tiles-Agree :
    (m m' : Memory) (h : ℕ) (bs : List Block)
    → Agree m m' h (h + total bs)
    → Tiles m h bs
    → Tiles m' h bs
Tiles-Agree m m' h [] a t = tt
Tiles-Agree m m' h (b ∷ bs) a (t, ts) = (
  IsBlock-frame m m' h b (a h (omega arith) (omega (arith, t.least)))
      (a (h + b.size - 4) (omega (arith, t.least)) (omega (arith, t.least))) t,
  Tiles-Agree m m' (h + b.size) bs (λ q l s. a q (omega arith) (omega arith)) ts,
)

pub Before-Agree :
    (m m' : Memory) (h : ℕ) (ls : List Block)
    → Agree m m' h (h + total ls)
    → Before m h ls
    → Before m' h ls
Before-Agree m m' h [] a t = tt
Before-Agree m m' h (b ∷ ls) a (t, ts) = (
  IsBlock-frame m m' (h + total ls) b (a (h + total ls) (omega arith) (omega (arith, t.least)))
      (a (h + total ls + b.size - 4) (omega (arith, t.least)) (omega (arith, t.least))) t,
  Before-Agree m m' h ls (λ q l s. a q (omega arith) (omega arith)) ts,
)

-- The place moves on by a block, and back.
pub At-next :
    (h : ℕ) (ls : List Block) (b : Block) (rs : List Block) (s : Heap)
    → At h ls (b ∷ rs) s
    → At h (b ∷ ls) rs s
At-next h ls b rs s k = record {
  listp = k.listp;
  room = k.room;
  aligned = k.aligned;
  prologue_header = k.prologue_header;
  prologue_footer = k.prologue_footer;
  before = (k.after.0, k.before);
  after = subst (λ p. Tiles s.mem p rs) place k.after.1;
  epilogue = subst (λ p. s.mem p ≡ 1) end k.epilogue;
  stop = omega (arith, k.stop);
  small = k.small;
}
  where
    place : h + total ls + b.size ≡ h + (b.size + total ls)
    place = omega arith

    end : h + total ls + (b.size + total rs) ≡ h + (b.size + total ls) + total rs
    end = omega arith

pub At-back :
    (h : ℕ) (ls : List Block) (b : Block) (rs : List Block) (s : Heap)
    → At h (b ∷ ls) rs s
    → At h ls (b ∷ rs) s
At-back h ls b rs s k = record {
  listp = k.listp;
  room = k.room;
  aligned = k.aligned;
  prologue_header = k.prologue_header;
  prologue_footer = k.prologue_footer;
  before = k.before.1;
  after = (k.before.0, subst (λ p. Tiles s.mem p rs) place k.after);
  epilogue = subst (λ p. s.mem p ≡ 1) end k.epilogue;
  stop = omega (arith, k.stop);
  small = k.small;
}
  where
    place : h + (b.size + total ls) ≡ h + total ls + b.size
    place = omega arith

    end : h + (b.size + total ls) + total rs ≡ h + total ls + (b.size + total rs)
    end = omega arith

-- Reads of a word.
pub get_size_word :
    (m : Memory) (p size alloc : ℕ)
    → m p ≡ size + alloc
    → size % 8 ≡ 0
    → alloc < 2
    → get_size m p ≡ size
get_size_word m p size alloc e d b = omega arith

pub get_alloc_word :
    (m : Memory) (p size alloc : ℕ)
    → m p ≡ size + alloc
    → size % 8 ≡ 0
    → alloc < 2
    → get_alloc m p ≡ alloc
get_alloc_word m p size alloc e d b = omega arith

pub put_self : (p v : ℕ) (m : Memory) → v < 2 ^ 32 → put p v m p ≡ v
put_self p v m h = ground arith

pub put_ne : (p v q : ℕ) (m : Memory) → p ≢ q → put p v m q ≡ m q
put_ne p v q m h = ground arith

pub pack_free : (size : ℕ) → pack size 0 ≡ size
pack_free size = refl

pub pack_taken : (size : ℕ) → size % 8 ≡ 0 → pack size 1 ≡ size + 1
pack_taken size h = omega arith
