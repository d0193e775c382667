-- ===== src/Malloc/Take.antt =====
-- A free block is taken, as `mm_malloc` does with what it found.
use sogang_university.Shared.{
  ℕ, ◌+◌, ◌-◌, ◌%◌, ◌≤◌, ◌≡◌, ◌⊎◌, refl, arith, inl, inr, Bool-cases, leb, List, ◌∷◌, ◌++◌,
}
use sogang_university.Malloc.{Heap, place}
use sogang_university.Malloc.Blocks.{Block, total}
use sogang_university.Malloc.{take_block}
use sogang_university.Malloc.Around.{next_bit}
use sogang_university.Malloc.Well.{
  rev_onto, Apart, Last, Well, At-last, At-to, At-from, Apart-to, Apart-from,
}
use sogang_university.Malloc.Place.{placed, place-At}

-- The bits of a free block's neighbours.
Apart-free :
    (b : Block) (bs : List Block)
    → b.alloc ≡ 0
    → (b.alloc ≡ 1) ⊎ (next_bit bs ≡ 1)
    → next_bit bs ≡ 1
Apart-free b bs e (inl f) = absurd (omega (arith, e, f))
Apart-free b bs e (inr f) = f

placed-Apart :
    (asize : ℕ) (b : Block) (ls rs : List Block)
    → Apart ls
    → Apart rs
    → next_bit rs ≡ 1
    → Apart (rev_onto ls (placed asize b ++ rs))
placed-Apart asize b ls rs l r f = elim (Bool-cases (leb 16 (b.size - asize))) [
  | inl e ↦ rw e (Apart-from ls _ l (inl refl, (inr f, r)) (inr refl))
  | inr e ↦ rw e (Apart-from ls _ l (inl refl, r) (inr refl))
]

placed-Last :
    (h asize : ℕ) (b : Block) (ls rs : List Block)
    → asize ≤ b.size
    → Last h (rev_onto ls (placed asize b ++ rs)) (h + total ls + 4)
placed-Last h asize b ls rs l = elim (Bool-cases (leb 16 (b.size - asize))) [
  | inl e ↦ rw e (record {
    passed = record { size = asize; alloc = 1 } ∷ ls;
    rest = record { size = b.size - asize; alloc = 0 } ∷ rs;
    all = refl;
    place = omega arith;
  })
  | inr e ↦ rw e (record {
    passed = record { size = b.size; alloc = 1 } ∷ ls;
    rest = rs;
    all = refl;
    place = omega arith;
  })
]

pub take_block_lem :
    (h : ℕ) (ls : List Block) (b : Block) (rs : List Block) (s : Heap) (asize : ℕ)
    → Well h (rev_onto ls (b ∷ rs)) s
    → b.alloc ≡ 0
    → (asize % 8 ≡ 0) × (16 ≤ asize) × (asize ≤ b.size)
    → Well h (rev_onto ls (placed asize b ++ rs)) (take_block (h + total ls + 4) asize s).1
take_block_lem h ls b rs s asize w e sizes =
    let bp = h + total ls + 4 in
    let (l, r, j) = Apart-to ls (b ∷ rs) w.apart in
    record {
      at = At-from h ls (placed asize b ++ rs) (take_block bp asize s).1 (
          At-last h ls (placed asize b ++ rs) (place bp asize s) bp
            (place-At h ls b rs s asize (At-to h ls (b ∷ rs) s w.at) sizes));
      apart = placed-Apart asize b ls rs l r.1 (Apart-free b rs e r.0);
      last = placed-Last h asize b ls rs sizes.2;
    }
