-- ===== src/Malloc/Split.antt =====
-- The two branches of `place`, and the words that it writes.
use sogang_university.Shared.{
  ℕ, ◌+◌, ◌-◌, ◌%◌, ◌^◌, ◌≤◌, ◌<◌, ◌≡◌, ◌⊎◌, refl, arith, true, false, leb,
}
use sogang_university.Malloc.{Memory, pack, put, get_size, hdrp, Heap, place}
use sogang_university.Malloc.Blocks.{put_self, put_ne, pack_taken}

-- A block of `asize` bytes is made at `p`, and a free one of `rest` bytes after it.
abbrev pub four : ℕ → ℕ → ℕ → Memory → Memory
four p asize rest m =
    put (p + asize + rest - 8) rest
      (put (p + asize - 4) rest (put (p + asize - 8) (asize + 1) (put (p - 4) (asize + 1) m)))

module _ (bp asize csize : ℕ) (s : Heap) (size : get_size s.mem (hdrp bp) ≡ csize)
    (aligned : (asize % 8 ≡ 0) × (csize % 8 ≡ 0))
    (enough : (16 ≤ asize) × (asize ≤ csize) × (4 ≤ bp)) (small : csize + 1 < 2 ^ 32) where
  fits_in : (csize + 2 ^ 64 - asize) % 2 ^ 64 ≡ csize - asize
  fits_in = omega arith

  taken : pack asize 1 ≡ asize + 1
  taken = pack_taken asize aligned.0

  taken_whole : pack csize 1 ≡ csize + 1
  taken_whole = pack_taken csize aligned.1

  m1 : get_size (put (hdrp bp) (asize + 1) s.mem) (hdrp bp) ≡ asize
  m1 = let e = put_self (hdrp bp) (asize + 1) s.mem (omega arith) in omega (arith, e)

  m2 :
      get_size (put (bp + asize - 8) (asize + 1) (put (hdrp bp) (asize + 1) s.mem)) (bp - 4) ≡ asize
  m2 =
      let e =
        put_ne (bp + asize - 8) (asize + 1) (bp - 4) (put (hdrp bp) (asize + 1) s.mem)
          (omega arith) in
      rw e m1

  m3 :
      get_size
        (put
          (hdrp (bp + asize))
          (csize - asize)
          (put (bp + asize - 8) (asize + 1) (put (hdrp bp) (asize + 1) s.mem)))
        (hdrp (bp + asize))
      ≡ csize - asize
  m3 =
      let e =
        put_self (hdrp (bp + asize)) (csize - asize)
          (put (bp + asize - 8) (asize + 1) (put (hdrp bp) (asize + 1) s.mem)) (omega arith) in
      omega (arith, e)

  pub place_split :
      16 ≤ csize - asize → place bp asize s ≡ record s { mem = four bp asize (csize - asize) s.mem }
  unfolding place
  place_split l =
      let test : leb 16 (csize - asize) ≡ true = ground arith in
      rw (place, size, fits_in, taken, test, m1, m2, m3) refl

  whole1 : get_size (put (hdrp bp) (csize + 1) s.mem) (hdrp bp) ≡ csize
  whole1 = let e = put_self (hdrp bp) (csize + 1) s.mem small in omega (arith, e)

  pub place_whole :
      csize - asize < 16
      → place bp asize s
        ≡ record s { mem = put (bp + csize - 8) (csize + 1) (put (bp - 4) (csize + 1) s.mem) }
  unfolding place
  place_whole l =
      let test : leb 16 (csize - asize) ≡ false = ground arith in
      rw (place, size, fits_in, taken_whole, test, whole1) refl

-- The words that `four` writes, and the others.
pub four_start :
    (p a r : ℕ) (m : Memory)
    → 16 ≤ a
    → 16 ≤ r
    → 4 ≤ p
    → a + 1 < 2 ^ 32
    → four p a r m (p - 4) ≡ a + 1
four_start p a r m k l n o = ground arith

pub four_footer :
    (p a r : ℕ) (m : Memory)
    → 16 ≤ a
    → 16 ≤ r
    → 4 ≤ p
    → a + 1 < 2 ^ 32
    → four p a r m (p + a - 8) ≡ a + 1
four_footer p a r m k l n o = ground arith

pub four_next :
    (p a r : ℕ) (m : Memory) → 16 ≤ a → 16 ≤ r → r < 2 ^ 32 → four p a r m (p + a - 4) ≡ r
four_next p a r m k l o = ground arith

pub four_end : (p a r : ℕ) (m : Memory) → r < 2 ^ 32 → four p a r m (p + a + r - 8) ≡ r
four_end p a r m o = ground arith

pub four_ne :
    (p a r : ℕ) (m : Memory) (q : ℕ)
    → 16 ≤ a
    → 16 ≤ r
    → 4 ≤ p
    → q < p - 4 ⊎ p + a + r - 4 ≤ q
    → four p a r m q ≡ m q
four_ne p a r m q k l n o = ground arith
