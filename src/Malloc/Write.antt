-- ===== src/Malloc/Write.antt =====
-- One or two words of the heap are written, inside a block.
use sogang_university.Shared.{
  ℕ, ◌+◌, ◌-◌, ◌^◌, ◌≤◌, ◌<◌, ◌≡◌, ◌≢◌, ◌⊎◌, refl, sym, ◌∙◌, arith, inl, inr, List, [], ◌∷◌, ◌++◌,
}
use mathlib.Core.Path.{subst}
use sogang_university.Malloc.{Memory, put, Heap}
use sogang_university.Malloc.Blocks.{Block, total, Tiles, At, Tiles-Agree, Before-Agree}

-- Two words are written with one value.
pub put_two :
    (a b v : ℕ) (m : Memory)
    → v < 2 ^ 32
    → (put a v (put b v m) a ≡ v) × (put a v (put b v m) b ≡ v)
put_two a b v m l = (ground arith, ground arith)

pub put_two_ne : (a b v : ℕ) (m : Memory) (q : ℕ) → a ≢ q → b ≢ q → put a v (put b v m) q ≡ m q
put_two_ne a b v m q f g = ground arith

total-append : (xs ys : List Block) → total (xs ++ ys) ≡ total xs + total ys
total-append [] ys = omega arith
total-append (b ∷ xs) ys = omega (arith, total-append xs ys)

Tiles-append :
    (m : Memory) (h : ℕ) (xs ys : List Block)
    → Tiles m h xs
    → Tiles m (h + total xs) ys
    → Tiles m h (xs ++ ys)
Tiles-append m h [] ys t u = let same : h + 0 ≡ h = omega arith in subst (λ p. Tiles m p ys) same u
Tiles-append m h (b ∷ xs) ys (t, ts) u =
    let same : h + (b.size + total xs) ≡ h + b.size + total xs = omega arith in
    (t, Tiles-append m (h + b.size) xs ys ts (subst (λ p. Tiles m p ys) same u))

Tiles-rest :
    (m : Memory) (h : ℕ) (xs ys : List Block) → Tiles m h (xs ++ ys) → Tiles m (h + total xs) ys
Tiles-rest m h [] ys t = let same : h ≡ h + 0 = omega arith in subst (λ p. Tiles m p ys) same t
Tiles-rest m h (b ∷ xs) ys (t, ts) =
    let same : h + b.size + total xs ≡ h + (b.size + total xs) = omega arith in
    subst (λ p. Tiles m p ys) same (Tiles-rest m (h + b.size) xs ys ts)

-- The blocks `old` are replaced by `new`, which take the same room, and nothing else is written.
pub At-write :
    (h : ℕ) (ls old new rs : List Block) (s : Heap) (m' : Memory) (last : ℕ)
    → At h ls (old ++ rs) s
    → total new ≡ total old
    → Tiles m' (h + total ls) new
    → ((q : ℕ) → q < h + total ls ⊎ h + total ls + total old ≤ q → m' q ≡ s.mem q)
    → At h ls (new ++ rs) (record s { mem = m'; last_bp = last })
At-write h ls old new rs s m' last k size tiles same = record {
  listp = k.listp;
  room = k.room;
  aligned = k.aligned;
  prologue_header = same (h - 8) (inl (omega (arith, k.room))) ∙ k.prologue_header;
  prologue_footer = same (h - 4) (inl (omega (arith, k.room))) ∙ k.prologue_footer;
  before = Before-Agree s.mem m' h ls (λ q l t. same q (inl t)) k.before;
  after = Tiles-append m' (h + total ls) new rs tiles (
      subst (λ p. Tiles m' (h + total ls + p) rs) (sym size)
        (Tiles-Agree s.mem m' (h + total ls + total old) rs (λ q l t. same q (inr l))
          (Tiles-rest s.mem (h + total ls) old rs k.after)));
  epilogue =
      subst (λ p. m' p ≡ 1) end
        (same (h + total ls + total (old ++ rs)) (inr (omega (arith, total-append old rs)))
          ∙ k.epilogue);
  stop = omega (arith, k.stop, total-append old rs, total-append new rs);
  small = k.small;
}
  where
    end : h + total ls + total (old ++ rs) ≡ h + total ls + total (new ++ rs)
    end = omega (arith, size, total-append old rs, total-append new rs)

-- A block is written anew, its footer after its header.
pub At-write_block :
    (h : ℕ) (ls : List Block) (c : Block) (rs : List Block) (s : Heap) (a b v : ℕ)
    → At h ls (c ∷ rs) s
    → a ≡ h + total ls
    → b ≡ h + total ls + c.size - 4
    → v ≡ c.size + 0 ⊎ v ≡ c.size + 1
    → At h ls
        (record { size = c.size; alloc = v - c.size } ∷ rs)
        (record s { mem = put b v (put a v s.mem) })
At-write_block h ls c rs s a b v k e f is =
    let here = k.after.0 in
    let small : v < 2 ^ 32 = omega (arith, is, k.stop, k.small) in
    let (at_b, at_a) = put_two b a v s.mem small in
    let m' : Memory = put b v (put a v s.mem) in
    let c' : Block = record { size = c.size; alloc = v - c.size } in
    At-write h ls (c ∷ []) (c' ∷ []) rs s m' s.last_bp k refl
      (
        record {
          header = subst (λ q. m' q ≡ c.size + (v - c.size)) e (at_a ∙ omega (arith, is));
          footer = subst (λ q. m' q ≡ c.size + (v - c.size)) f (at_b ∙ omega (arith, is));
          whole = here.whole;
          least = here.least;
          bit = omega (arith, is);
        },
        tt,
      )
      (λ q out.
        put_two_ne b a v s.mem q (λ z. ground (arith, z, f, out, here.least))
          (λ z. ground (arith, z, e, out, here.least)))
