-- ===== src/Malloc/Place.antt =====
-- `place` on the list of blocks.
use sogang_university.Shared.{
  ℕ, ◌+◌, ◌-◌, ◌%◌, ◌^◌, ◌≤◌, ◌<◌, ◌≡◌, ◌⊎◌, refl, ◌∙◌, arith, inl, inr, true, false, Bool-cases,
  leb, if◌then◌else◌, List, [], ◌∷◌, ◌++◌,
}
use mathlib.Core.Path.{subst}
use sogang_university.Malloc.{put, get_size, hdrp, Heap, place}
use sogang_university.Malloc.Blocks.{Block, total, At, get_size_word}
use sogang_university.Malloc.Write.{At-write, put_two_ne, At-write_block}
use sogang_university.Malloc.Split.{
  four, place_split, place_whole, four_start, four_footer, four_next, four_end, four_ne,
}

-- What `place` makes of a free block.
abbrev pub placed : ℕ → Block → List Block
placed asize b =
    if leb 16 (b.size - asize)
    then record { size = asize; alloc = 1 } ∷ record { size = b.size - asize; alloc = 0 } ∷ []
    else record { size = b.size; alloc = 1 } ∷ []

taken_block :
    (h : ℕ) (ls : List Block) (b : Block) (rs : List Block) (s : Heap)
    → At h ls (b ∷ rs) s
    → At h ls (record { size = b.size; alloc = 1 } ∷ rs) (record s {
      mem =
          put
            (h + total ls + 4 + b.size - 8)
            (b.size + 1)
            (put (h + total ls + 4 - 4) (b.size + 1) s.mem);
    })
taken_block h ls b rs s k =
    let one : b.size + 1 - b.size ≡ 1 = omega arith in
    let made =
      At-write_block h ls b rs s (h + total ls + 4 - 4) (h + total ls + 4 + b.size - 8) (b.size + 1)
        k (omega arith) (omega (arith, k.after.0.least)) (inr refl) in
    subst
      (λ z. At h ls (record { size = b.size; alloc = z } ∷ rs) (record s {
        mem =
            put (h + total ls + 4 + b.size - 8) (b.size + 1)
              (put (h + total ls + 4 - 4) (b.size + 1) s.mem);
      }))
      one made

-- A block of a well-formed heap in which `place` puts a block of `asize` bytes.
module _ (h : ℕ) (ls : List Block) (b : Block) (rs : List Block) (s : Heap) (asize : ℕ)
    (k : At h ls (b ∷ rs) s) (sizes : (asize % 8 ≡ 0) × (16 ≤ asize) × (asize ≤ b.size)) where
  abbrev bp : ℕ
  bp = h + total ls + 4

  abbrev split : Heap
  split = record s { mem = four bp asize (b.size - asize) s.mem }

  abbrev whole : Heap
  whole = record s { mem = put (bp + b.size - 8) (b.size + 1) (put (bp - 4) (b.size + 1) s.mem) }

  -- What `place` does there.
  abbrev Split : Type 0
  Split = (leb 16 (b.size - asize) ≡ true) × (place bp asize s ≡ split)

  abbrev Whole : Type 0
  Whole = (leb 16 (b.size - asize) ≡ false) × (place bp asize s ≡ whole)

  place_cases : Split ⊎ Whole
  place_cases =
      let here = k.after.0 in
      let start : bp - 4 ≡ h + total ls = omega arith in
      let size : get_size s.mem (hdrp bp) ≡ b.size =
        rw start
          (get_size_word s.mem (h + total ls) b.size b.alloc here.header here.whole here.bit) in
      let small : b.size + 1 < 2 ^ 32 = omega (arith, k.stop, k.small) in
      let eqs : (asize % 8 ≡ 0) × (b.size % 8 ≡ 0) = (sizes.0, here.whole) in
      let ins : (16 ≤ asize) × (asize ≤ b.size) × (4 ≤ bp) = (sizes.1, sizes.2, omega arith) in
      elim (Bool-cases (leb 16 (b.size - asize))) [
        | inl e ↦ inl (e, place_split bp asize b.size s size eqs ins small (ground (arith, e)))
        | inr e ↦ inr (e, place_whole bp asize b.size s size eqs ins small (ground (arith, e)))
      ]

  pub place-At : At h ls (placed asize b ++ rs) (place bp asize s)
  place-At =
      let here = k.after.0 in
      let start : bp - 4 ≡ h + total ls = omega arith in
      let least = sizes.1 in
      let m = s.mem in
      let p = h + total ls in
      let rest = b.size - asize in
      elim place_cases [
        | inl (e, f) ↦
            let l : 16 ≤ rest = ground (arith, e) in
            rw (f, e)
              (At-write h ls (b ∷ [])
                (record { size = asize; alloc = 1 } ∷ record { size = rest; alloc = 0 } ∷ []) rs s
                (four bp asize rest m) s.last_bp k (omega (arith, k.stop, k.small, sizes))
                (
                  record {
                    header =
                        subst (λ q. four bp asize rest m q ≡ asize + 1) start
                          (four_start bp asize rest m least l
                            (omega (arith, k.stop, k.small, sizes))
                            (omega (arith, k.stop, k.small, sizes)));
                    footer =
                        let at : bp + asize - 8 ≡ p + asize - 4 = omega arith in
                        subst (λ q. four bp asize rest m q ≡ asize + 1) at
                          (four_footer bp asize rest m least l
                            (omega (arith, k.stop, k.small, sizes))
                            (omega (arith, k.stop, k.small, sizes)));
                    whole = sizes.0;
                    least = least;
                    bit = omega arith;
                  },
                  (
                    record {
                      header =
                          let at : bp + asize - 4 ≡ p + asize = omega arith in
                          subst (λ q. four bp asize rest m q ≡ rest + 0) at
                            (four_next bp asize rest m least l
                                (omega (arith, k.stop, k.small, sizes))
                              ∙ omega (arith, k.stop, k.small, sizes));
                      footer =
                          let at : bp + asize + rest - 8 ≡ p + asize + rest - 4 = omega arith in
                          subst (λ q. four bp asize rest m q ≡ rest + 0) at
                            (four_end bp asize rest m (omega (arith, k.stop, k.small, sizes))
                              ∙ omega (arith, k.stop, k.small, sizes));
                      whole = omega (arith, here.whole);
                      least = l;
                      bit = omega arith;
                    },
                    tt,
                  ),
                )
                (λ q out.
                  four_ne bp asize rest m q least l (omega (arith, k.stop, k.small, sizes))
                    (omega (arith, out))))
        | inr (e, f) ↦ rw (f, e) (taken_block h ls b rs s k)
      ]

  -- The words outside the block, and the rest of the state, stay.
  pub place-frame :
      (q : ℕ) → q < h + total ls ⊎ h + total ls + b.size ≤ q → (place bp asize s).mem q ≡ s.mem q
  place-frame q out =
      let here = k.after.0 in
      elim place_cases [
        | inl (e, f) ↦ rw f (
            four_ne bp asize (b.size - asize) s.mem q sizes.1 (ground (arith, e)) (omega arith)
              (omega (arith, out, sizes)))
        | inr (e, f) ↦ rw f (
            put_two_ne (bp + b.size - 8) (bp - 4) (b.size + 1) s.mem q
              (λ z. ground (arith, z, out, here.least)) (λ z. ground (arith, z, out, here.least)))
      ]
