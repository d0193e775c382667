-- ===== src/Malloc/Well.antt =====
-- The invariant of the whole heap.
use sogang_university.Shared.{
  ℕ, zero, suc, ◌+◌, ◌<◌, ◌≡◌, ◌⊎◌, refl, arith, inl, inr, List, [], ◌∷◌,
}
use sogang_university.Malloc.{Heap}
use sogang_university.Malloc.Blocks.{Block, total, At, At-next, At-back}
use sogang_university.Malloc.Around.{next_bit, prev_size, free_size, drop_free}

-- The blocks of both sides of a place, in the order of their addresses.
abbrev pub rev_onto : List Block → List Block → List Block
rev_onto [] rs = rs
rev_onto (a ∷ ls) rs = rev_onto ls (a ∷ rs)

-- No two free blocks are next to each other.
abbrev pub Apart : List Block → Type 0
Apart [] = Unit
Apart (b ∷ bs) = ((b.alloc ≡ 1) ⊎ (next_bit bs ≡ 1)) × Apart bs

-- `last_bp` is the end of the prologue or a block.
pub record Last (h : ℕ) (bs : List Block) (last : ℕ) : Type 0 where
  pub passed : List Block
  pub rest : List Block
  pub all : rev_onto passed rest ≡ bs
  pub place : last + prev_size passed ≡ h + total passed + 4

pub record Well (h : ℕ) (bs : List Block) (s : Heap) : Type 0 where
  pub at : At h [] bs s
  pub apart : Apart bs
  pub last : Last h bs s.last_bp

pub At-last :
    (h : ℕ) (ls rs : List Block) (s : Heap) (last : ℕ)
    → At h ls rs s
    → At h ls rs (record s { last_bp = last })
At-last h ls rs s last k = record {
  listp = k.listp;
  room = k.room;
  aligned = k.aligned;
  prologue_header = k.prologue_header;
  prologue_footer = k.prologue_footer;
  before = k.before;
  after = k.after;
  epilogue = k.epilogue;
  stop = k.stop;
  small = k.small;
}

pub At-to : (h : ℕ) (ls rs : List Block) (s : Heap) → At h [] (rev_onto ls rs) s → At h ls rs s
At-to h [] rs s k = k
At-to h (a ∷ ls) rs s k = At-next h ls a rs s (At-to h ls (a ∷ rs) s k)

pub At-from : (h : ℕ) (ls rs : List Block) (s : Heap) → At h ls rs s → At h [] (rev_onto ls rs) s
At-from h [] rs s k = k
At-from h (a ∷ ls) rs s k = At-from h ls (a ∷ rs) s (At-back h ls a rs s k)

swap_sides : {A : Type 0} → {B : Type 0} → A ⊎ B → B ⊎ A
swap_sides (inl a) = inr a
swap_sides (inr b) = inl b

pub Apart-to :
    (ls rs : List Block)
    → Apart (rev_onto ls rs)
    → Apart ls × Apart rs × ((next_bit ls ≡ 1) ⊎ (next_bit rs ≡ 1))
Apart-to [] rs k = (tt, k, inl refl)
Apart-to (a ∷ ls) rs k = let (l, r, j) = Apart-to ls (a ∷ rs) k in ((swap_sides j, l), r.1, r.0)

pub Apart-from :
    (ls rs : List Block)
    → Apart ls
    → Apart rs
    → (next_bit ls ≡ 1) ⊎ (next_bit rs ≡ 1)
    → Apart (rev_onto ls rs)
Apart-from [] rs l r j = r
Apart-from (a ∷ ls) rs l r j = Apart-from ls (a ∷ rs) l.1 (j, r) (swap_sides l.0)

-- A list begins with a free block or not.
pub data Begins : List Block → Type 0 where
  free : (b : Block) (bs : List Block) → b.alloc ≡ 0 → Begins (b ∷ bs)
  kept : (bs : List Block) → next_bit bs ≡ 1 → Begins bs

bit_cases : (x : ℕ) → x < 2 → (x ≡ 0) ⊎ (x ≡ 1)
bit_cases zero l = inl refl
bit_cases (suc zero) l = inr refl
bit_cases (suc (suc n)) l = absurd (omega (arith, l))

pub begins : (bs : List Block) → next_bit bs < 2 → Begins bs
begins [] l = kept [] refl
begins (b ∷ bs) l = elim (bit_cases b.alloc l) [ inl e ↦ free b bs e | inr e ↦ kept (b ∷ bs) e ]

pub free_size_kept : (bs : List Block) → next_bit bs ≡ 1 → (free_size bs ≡ 0) × (drop_free bs ≡ bs)
free_size_kept [] e = (refl, refl)
free_size_kept (b ∷ bs) e = (rw e refl, rw e refl)

drop_free-begins :
    (bs : List Block) → Begins bs → Apart bs → Apart (drop_free bs) × (next_bit (drop_free bs) ≡ 1)
drop_free-begins bs (kept x e) k = rw (free_size_kept bs e).1 (k, e)
drop_free-begins bs (free b cs e) k =
    rw e (k.1, elim k.0 [ inl f ↦ absurd (omega (arith, e, f)) | inr f ↦ f ])

pub drop_free-Apart :
    (bs : List Block)
    → next_bit bs < 2
    → Apart bs
    → Apart (drop_free bs) × (next_bit (drop_free bs) ≡ 1)
drop_free-Apart bs l = drop_free-begins bs (begins bs l)
