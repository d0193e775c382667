-- ===== src/Malloc/Coalesce.antt =====
-- `coalesce` joins a free block with its free neighbours.
use sogang_university.Shared.{ℕ, ◌+◌, ◌-◌, ◌%◌, ◌^◌, ◌≤◌, ◌<◌, ◌≡◌, refl, arith}
use sogang_university.Malloc.{
  Memory, put, get_size, get_alloc, hdrp, ftrp, next_blkp, prev_blkp, Heap, coalesce,
}
use sogang_university.Malloc.Blocks.{put_self, put_ne}

-- A block of the heap as `coalesce` sees it from `bp`: its size, its neighbours' sizes and bits.
module _ (s : Heap) (bp sz ns na ps pa : ℕ) (here : s.mem (bp - 4) ≡ sz)
    (next : s.mem (bp + sz - 4) ≡ ns + na) (next_end : na ≡ 0 → s.mem (bp + sz + ns - 8) ≡ ns)
    (prev : s.mem (bp - 8) ≡ ps + pa) (prev_start : s.mem (bp - ps - 4) ≡ ps + pa)
    (whole : (sz % 8 ≡ 0) × (ns % 8 ≡ 0) × (ps % 8 ≡ 0) × (na < 2) × (pa < 2))
    (least : (16 ≤ sz) × (8 ≤ ps) × (ps + 8 ≤ bp)) (small : sz + ps + ns < 2 ^ 32) where
  size_here : get_size s.mem (hdrp bp) ≡ sz
  size_here = omega arith

  next_place : next_blkp s.mem bp ≡ bp + sz
  next_place = omega (arith, size_here)

  prev_place : prev_blkp s.mem bp ≡ bp - ps
  prev_place = omega arith

  next_alloc : get_alloc s.mem (hdrp (next_blkp s.mem bp)) ≡ na
  next_alloc = rw next_place (omega (arith, next))

  size_next : get_size s.mem (hdrp (next_blkp s.mem bp)) ≡ ns
  size_next = rw next_place (omega (arith, next))

  size_prev : get_size s.mem (hdrp (prev_blkp s.mem bp)) ≡ ps
  size_prev = rw prev_place (omega (arith, prev_start))

  prev_footer : ftrp s.mem (prev_blkp s.mem bp) ≡ bp - 8
  prev_footer = rw prev_place (omega (arith, prev_start))

  prev_alloc : get_alloc s.mem (ftrp s.mem (prev_blkp s.mem bp)) ≡ pa
  prev_alloc = rw prev_footer (omega (arith, prev))

  pub coalesce_alone : na ≡ 1 → pa ≡ 1 → coalesce bp s ≡ (bp, record s { last_bp = bp })
  unfolding coalesce
  coalesce_alone n p = rw (coalesce, next_alloc, prev_alloc, n, p) refl

  abbrev pub m1 : Memory
  m1 = put (bp - 4) (sz + ns) s.mem

  m1_footer : ftrp m1 bp ≡ bp + (sz + ns) - 8
  m1_footer = omega (arith, put_self (bp - 4) (sz + ns) s.mem (omega arith))

  pub coalesce_next :
      na ≡ 0
      → pa ≡ 1
      → coalesce bp s ≡ (
        bp,
        record s {
          mem = put (bp + (sz + ns) - 8) (sz + ns) (put (bp - 4) (sz + ns) s.mem);
          last_bp = bp;
        },
      )
  unfolding coalesce
  coalesce_next n p =
      rw (coalesce, next_alloc, prev_alloc, n, p, size_next, size_here, m1_footer) refl

  abbrev pub m2 : Memory
  m2 = put (bp + sz - 8) (sz + ps) s.mem

  here_footer : ftrp s.mem bp ≡ bp + sz - 8
  here_footer = omega (arith, size_here)

  m2_prev : prev_blkp m2 bp ≡ bp - ps
  m2_prev =
      let same = put_ne (bp + sz - 8) (sz + ps) (bp - 8) s.mem (omega arith) in omega (arith, same)

  abbrev pub m3 : Memory
  m3 = put (bp - ps - 4) (sz + ps) m2

  m3_prev : prev_blkp m3 bp ≡ bp - ps
  m3_prev =
      let same = put_ne (bp - ps - 4) (sz + ps) (bp - 8) m2 (omega arith) in
      let same' = put_ne (bp + sz - 8) (sz + ps) (bp - 8) s.mem (omega arith) in
      omega (arith, same, same')

  pub coalesce_prev :
      na ≡ 1 → pa ≡ 0 → coalesce bp s ≡ (bp - ps, record s { mem = m3; last_bp = bp - ps })
  unfolding coalesce
  coalesce_prev n p =
      rw
        (
          coalesce, next_alloc, prev_alloc, n, p, size_prev, here_footer, size_here, m2_prev,
          m3_prev,
        )
        refl

  abbrev pub all : ℕ
  all = sz + (ps + ns)

  abbrev pub m4 : Memory
  m4 = put (bp - ps - 4) all s.mem

  m4_next : next_blkp m4 bp ≡ bp + sz
  m4_next = let same = put_ne (bp - ps - 4) all (bp - 4) s.mem (omega arith) in omega (arith, same)

  m4_footer : ftrp m4 (bp + sz) ≡ bp + sz + ns - 8
  m4_footer =
      let same = put_ne (bp - ps - 4) all (bp + sz - 4) s.mem (omega arith) in
      omega (arith, same, next)

  next_footer : na ≡ 0 → get_size s.mem (ftrp s.mem (next_blkp s.mem bp)) ≡ ns
  next_footer n =
      let there : ftrp s.mem (next_blkp s.mem bp) ≡ bp + sz + ns - 8 =
        rw next_place (omega (arith, next)) in
      rw there (omega (arith, next_end n))

  abbrev pub m5 : Memory
  m5 = put (bp + sz + ns - 8) all m4

  m5_prev : prev_blkp m5 bp ≡ bp - ps
  m5_prev =
      let same = put_ne (bp + sz + ns - 8) all (bp - 8) m4 (omega arith) in
      let same' = put_ne (bp - ps - 4) all (bp - 8) s.mem (omega arith) in
      omega (arith, same, same')

  pub coalesce_both :
      na ≡ 0 → pa ≡ 0 → coalesce bp s ≡ (bp - ps, record s { mem = m5; last_bp = bp - ps })
  unfolding coalesce
  coalesce_both n p =
      rw
        (
          coalesce,
          next_alloc,
          prev_alloc,
          next_footer n,
          n,
          p,
          size_prev,
          size_here,
          prev_place,
          m4_next,
          m4_footer,
          m5_prev,
        )
        refl
