-- ===== src/Malloc/Join.antt =====
-- What `coalesce` makes of the list of blocks, in each of its branches.
use sogang_university.Shared.{
  ℕ, ◌+◌, ◌-◌, ◌%◌, ◌^◌, ◌≤◌, ◌<◌, ◌≡◌, ◌⊎◌, refl, ap, ◌∙◌, arith, inl, inr, List, [], ◌∷◌, ◌++◌,
}
use mathlib.Core.Path.{subst}
use sogang_university.Malloc.{Memory, put, Heap, coalesce}
use sogang_university.Malloc.Blocks.{Block, total, At, At-back}
use sogang_university.Malloc.Write.{At-write, put_two, put_two_ne}
use sogang_university.Malloc.Around.{next_bit, alone_lem, next_lem, prev_lem, both_lem}

-- What becomes of the heap `s`: one free block of the size given is at the end of `ls`, it is the
-- result and the last block, and nothing outside it is written.
pub record Joined (h : ℕ) (ls : List Block) (size : ℕ) (rs : List Block) (s : Heap) (r : ℕ × Heap)
    : Type 0 where
  pub pointer : r.0 ≡ h + total ls + 4
  pub last : r.1.last_bp ≡ h + total ls + 4
  pub well : At h ls (record { size = size; alloc = 0 } ∷ rs) r.1
  pub same : (q : ℕ) → q < h + total ls ⊎ h + total ls + size ≤ q → r.1.mem q ≡ s.mem q

Joined-write :
    (h : ℕ) (ls old rs : List Block) (size : ℕ) (s : Heap) (m' : Memory) (r : ℕ × Heap)
    → At h ls (old ++ rs) s
    → size ≡ total old
    → size % 8 ≡ 0
    → 16 ≤ size
    → m' (h + total ls) ≡ size
    → m' (h + total ls + size - 4) ≡ size
    → ((q : ℕ) → q < h + total ls ⊎ h + total ls + size ≤ q → m' q ≡ s.mem q)
    → r ≡ (h + total ls + 4, record s { mem = m'; last_bp = h + total ls + 4 })
    → Joined h ls size rs s r
Joined-write h ls old rs size s m' r k e whole least header footer same is = rw is (record {
  pointer = refl;
  last = refl;
  well =
      let b : Block = record { size = size; alloc = 0 } in
      At-write h ls old (b ∷ []) rs s m' (h + total ls + 4) k (omega (arith, e))
        (
          record {
            header = omega (arith, header);
            footer = omega (arith, footer);
            whole = whole;
            least = least;
            bit = omega arith;
          },
          tt,
        )
        (subst (λ z. (q : ℕ) → q < h + total ls ⊎ h + total ls + z ≤ q → m' q ≡ s.mem q) e same);
  same = same;
})

Joined-two :
    (h : ℕ) (ls old rs : List Block) (size : ℕ) (s : Heap) (a b p : ℕ) (r : ℕ × Heap)
    → At h ls (old ++ rs) s
    → size ≡ total old
    → size % 8 ≡ 0
    → 16 ≤ size
    → size < 2 ^ 32
    → (a ≡ h + total ls) × (b ≡ h + total ls + size - 4)
      ⊎ (a ≡ h + total ls + size - 4) × (b ≡ h + total ls)
    → p ≡ h + total ls + 4
    → r ≡ (p, record s { mem = put a size (put b size s.mem); last_bp = p })
    → Joined h ls size rs s r
Joined-two h ls old rs size s a b p r k e whole least small ends place is =
    let m' : Memory = put a size (put b size s.mem) in
    let (at_a, at_b) = put_two a b size s.mem small in
    elim ends [
      | inl (f, g) ↦
          Joined-write h ls old rs size s m' r k e whole least (subst (λ q. m' q ≡ size) f at_a)
            (subst (λ q. m' q ≡ size) g at_b)
            (λ q out.
              put_two_ne a b size s.mem q (λ z. ground (arith, z, f, out))
                (λ z. ground (arith, z, g, out)))
            (is ∙ ap (λ p. (p, record s { mem = m'; last_bp = p })) place)
      | inr (f, g) ↦
          Joined-write h ls old rs size s m' r k e whole least (subst (λ q. m' q ≡ size) g at_b)
            (subst (λ q. m' q ≡ size) f at_a)
            (λ q out.
              put_two_ne a b size s.mem q (λ z. ground (arith, z, f, out))
                (λ z. ground (arith, z, g, out)))
            (is ∙ ap (λ p. (p, record s { mem = m'; last_bp = p })) place)
    ]

-- No neighbour is free.
pub join_alone :
    (h : ℕ) (ls : List Block) (c : Block) (rs : List Block) (s : Heap)
    → At h ls (c ∷ rs) s
    → c.alloc ≡ 0
    → next_bit rs ≡ 1
    → next_bit ls ≡ 1
    → Joined h ls c.size rs s (coalesce (h + total ls + 4) s)
join_alone h ls c rs s k free e f =
    let b = k.after.0 in
    Joined-write h ls (c ∷ []) rs c.size s s.mem (coalesce (h + total ls + 4) s) k (omega arith)
      b.whole b.least (omega (arith, b.header, free)) (omega (arith, b.footer, free))
      (λ q out. refl) (alone_lem h ls c rs s k free e f)

-- The next is free.
pub join_next :
    (h : ℕ) (ls : List Block) (c d : Block) (rs : List Block) (s : Heap)
    → At h ls (c ∷ d ∷ rs) s
    → c.alloc ≡ 0
    → d.alloc ≡ 0
    → next_bit ls ≡ 1
    → Joined h ls (c.size + d.size) rs s (coalesce (h + total ls + 4) s)
join_next h ls c d rs s k e f g =
    Joined-two h ls (c ∷ d ∷ []) rs (c.size + d.size) s (h + total ls + 4 + (c.size + d.size) - 8)
      (h + total ls + 4 - 4) (h + total ls + 4) (coalesce (h + total ls + 4) s) k (omega arith)
      (omega (arith, k.after.0.whole, k.after.1.0.whole)) (omega (arith, k.after.0.least))
      (omega (arith, k.stop, k.small)) (inr (omega (arith, k.after.0.least), omega arith)) refl
      (next_lem h ls c (d ∷ rs) s k e f g)

-- The previous is free.
pub join_prev :
    (h : ℕ) (a : Block) (ls : List Block) (c : Block) (rs : List Block) (s : Heap)
    → At h (a ∷ ls) (c ∷ rs) s
    → c.alloc ≡ 0
    → a.alloc ≡ 0
    → next_bit rs ≡ 1
    → Joined h ls (c.size + a.size) rs s (coalesce (h + total (a ∷ ls) + 4) s)
join_prev h a ls c rs s k e f g =
    let back = At-back h ls a (c ∷ rs) s k in
    Joined-two h ls (a ∷ c ∷ []) rs (c.size + a.size) s (h + total (a ∷ ls) + 4 - a.size - 4)
      (h + total (a ∷ ls) + 4 + c.size - 8) (h + total (a ∷ ls) + 4 - a.size)
      (coalesce (h + total (a ∷ ls) + 4) s) back (omega arith)
      (omega (arith, k.after.0.whole, k.before.0.whole)) (omega (arith, k.after.0.least))
      (omega (arith, k.stop, k.small)) (inl (omega arith, omega (arith, k.after.0.least)))
      (omega arith) (prev_lem h (a ∷ ls) c rs s k e g f)

-- Both are.
pub join_both :
    (h : ℕ) (a : Block) (ls : List Block) (c d : Block) (rs : List Block) (s : Heap)
    → At h (a ∷ ls) (c ∷ d ∷ rs) s
    → c.alloc ≡ 0
    → a.alloc ≡ 0
    → d.alloc ≡ 0
    → Joined h ls (c.size + (a.size + d.size)) rs s (coalesce (h + total (a ∷ ls) + 4) s)
join_both h a ls c d rs s k e f g =
    let back = At-back h ls a (c ∷ d ∷ rs) s k in
    Joined-two h ls (a ∷ c ∷ d ∷ []) rs (c.size + (a.size + d.size)) s
      (h + total (a ∷ ls) + 4 + c.size + d.size - 8) (h + total (a ∷ ls) + 4 - a.size - 4)
      (h + total (a ∷ ls) + 4 - a.size) (coalesce (h + total (a ∷ ls) + 4) s) back (omega arith)
      (omega (arith, k.after.0.whole, k.before.0.whole, k.after.1.0.whole))
      (omega (arith, k.after.0.least)) (omega (arith, k.stop, k.small))
      (inr (omega (arith, k.after.0.least), omega arith)) (omega arith)
      (both_lem h (a ∷ ls) c (d ∷ rs) s k e g f)
