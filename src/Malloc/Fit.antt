-- ===== src/Malloc/Fit.antt =====
-- `find_fit` on the list of blocks.
use sogang_university.Shared.{
  ℕ, ◌+◌, ◌-◌, ◌≡◌, refl, sym, ap, ◌∙◌, arith, Option, none, some, List, [], ◌∷◌, ◌++◌,
  append_assoc,
}
use mathlib.Core.Path.{subst}
use sogang_university.Malloc.{Memory, get_size, next_blkp, Heap, fit_after, fit_before, find_fit}
use sogang_university.Malloc.Blocks.{Block, total, Tiles, At, get_size_word}
use sogang_university.Malloc.Around.{next_bit, prev_size, At-Prev}
use sogang_university.Malloc.Well.{rev_onto, Well, At-to}
use sogang_university.Malloc.Search.{Fits, NoFit}
use sogang_university.Malloc.Search.{
  Search, missed, met, Ends, Ends-rev, NoFit-append, rev_onto-append, rev_onto-nil, total-rev_onto,
  fit_after_lem, fit_before_lem,
}

-- What `find_fit` makes of a heap `s` of blocks `bs`: a free block of that size at least, which
-- `last_bp` then is, or there is none and nothing changes.
pub data FitFound (h : ℕ) (bs : List Block) (size : ℕ) (s : Heap) : Option ℕ × Heap → Type 0 where
  nothing : NoFit size bs → FitFound h bs size s (none, s)
  found :
      (ls : List Block) (b : Block) (rs : List Block)
      → rev_onto ls (b ∷ rs) ≡ bs
      → Fits size b
      → FitFound h bs size s (some (h + total ls + 4), record s { last_bp = h + total ls + 4 })

found_at :
    (h : ℕ) (bs : List Block) (size : ℕ) (s : Heap) (p : ℕ) (ls : List Block) (b : Block)
    (rs : List Block)
    → rev_onto ls (b ∷ rs) ≡ bs
    → h + total ls ≡ p
    → Fits size b
    → FitFound h bs size s (some (p + 4), record s { last_bp = p + 4 })
found_at h bs size s p ls b rs e f k =
    subst (λ z. FitFound h bs size s (some (z + 4), record s { last_bp = z + 4 })) f
      (found ls b rs e k)

module _ (h : ℕ) (size : ℕ) (s : Heap) (ls rs : List Block) where
  -- The second loop's result, when the first found nothing.
  found_before :
      (r : Option ℕ)
      → NoFit size rs
      → Search size h (rev_onto ls []) r
      → FitFound h
          (rev_onto ls rs)
          size
          s
          (elim r [ some bp ↦ (some bp, record s { last_bp = bp }) | none ↦ (none, s) ])
  found_before r n (missed k) =
      nothing (rw (rev_onto-nil ls [] rs) (NoFit-append size (rev_onto ls []) rs k n))
  found_before r n (met xs b ys e k) =
      let all : rev_onto (rev_onto xs []) (b ∷ (ys ++ rs)) ≡ rev_onto ls rs =
        sym (rev_onto-append [] xs (b ∷ (ys ++ rs)))
        ∙ sym (append_assoc xs (b ∷ ys) rs)
        ∙ ap (λ z. z ++ rs) (sym e)
        ∙ sym (rev_onto-nil ls [] rs) in
      found_at h (rev_onto ls rs) size s (h + total xs) (rev_onto xs []) b (ys ++ rs) all
        (omega (arith, total-rev_onto xs [])) k

  found_after :
      (r r' : Option ℕ)
      → Search size (h + total ls) rs r
      → Search size h (rev_onto ls []) r'
      → FitFound h (rev_onto ls rs) size s (elim r [
        | some bp ↦ (some bp, record s { last_bp = bp })
        | none ↦ elim r' [ some bp ↦ (some bp, record s { last_bp = bp }) | none ↦ (none, s) ]
      ])
  found_after r r' (missed n) k = found_before r' n k
  found_after r r' (met xs b ys e k) l =
      found_at h (rev_onto ls rs) size s (h + total ls + total xs) (rev_onto xs ls) b ys
        (sym (rev_onto-append ls xs (b ∷ ys)) ∙ ap (rev_onto ls) (sym e))
        (omega (arith, total-rev_onto xs ls)) k

Tiles-first : (m : Memory) (h : ℕ) (xs ys : List Block) → Tiles m h (xs ++ ys) → Tiles m h xs
Tiles-first m h [] ys t = tt
Tiles-first m h (b ∷ xs) ys (t, ts) = (t, Tiles-first m (h + b.size) xs ys ts)

-- On a well-formed heap the search is complete: it has fuel for every block.
pub find_fit_lem :
    (h : ℕ) (bs : List Block) (s : Heap) (size : ℕ)
    → Well h bs s
    → FitFound h bs size s (find_fit size s)
unfolding find_fit
find_fit_lem h bs s size w =
    let ls = w.last.passed in
    let rs = w.last.rest in
    let k0 = subst (λ z. At h [] z s) (sym w.last.all) w.at in
    let k = At-to h ls rs s k0 in
    let p = At-Prev h ls rs s k in
    let mem = s.mem in
    let here : h + 0 ≡ h = omega arith in
    let next : next_blkp mem s.last_bp ≡ h + total ls + 4 =
      let at : s.last_bp - 4 ≡ h + total ls - prev_size ls = omega (arith, w.last.place, p.room) in
      let size' : get_size mem (s.last_bp - 4) ≡ prev_size ls = rw at (
        get_size_word mem (h + total ls - prev_size ls) (prev_size ls) (next_bit ls) p.header
          p.whole p.bit) in
      omega (arith, size', w.last.place) in
    let after : Search size (h + total ls) rs (fit_after s.brk mem size (next_blkp mem s.last_bp)) =
      rw next (
        fit_after_lem s.brk mem size (h + total ls) rs k.after k.epilogue
          (omega (arith, k.stop))) in
    let before : Search size h (rev_onto ls []) (fit_before s.brk mem size s.last_bp s.heap_listp) =
      let start : s.heap_listp ≡ h - 4 = omega (arith, k.listp) in
      let all = subst (λ z. Tiles mem z (rev_onto ls rs)) here k0.after in
      let first =
        Tiles-first mem h (rev_onto ls []) rs (subst (Tiles mem h) (rev_onto-nil ls [] rs) all) in
      let next' : next_blkp mem s.heap_listp ≡ h + 4 =
        let at : s.heap_listp - 4 ≡ h - 8 = omega (arith, k.listp, k.room) in
        rw at (omega (arith, k.prologue_header, k.listp)) in
      fit_before_lem s.brk mem size s.last_bp h s.heap_listp (rev_onto ls []) first next'
        (omega (arith, k.listp))
        (subst (λ z. Ends h z s.last_bp (rev_onto ls [])) (sym start)
          (Ends-rev h s.last_bp s.last_bp ls [] w.last.place k.room refl))
        (omega (arith, total-rev_onto ls [], k.stop)) in
    subst (λ z. FitFound h z size s (find_fit size s)) w.last.all
      (found_after h size s ls rs _ _ after before)
