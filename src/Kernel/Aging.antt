-- ===== src/Kernel/Aging.antt =====
-- `update_aging`: every ready thread goes up by one, to PRI_MAX at most.
use sogang_university.Shared.{
  ℕ, zero, suc, ◌+◌, ◌≡◌, ◌≢◌, refl, sym, ap, ◌∙◌, arith, inl, inr, Bool-cases, ◌==◌, if◌then◌else◌,
  List, [], ◌∷◌, All,
}
use sogang_university.Shared.Int.{
  ℤ, pos, negsuc, ltb_ℤ, ◌≤ℤ◌, ◌+ℤ◌, wrap_lem, +ℤ_parts, eq_of_parts,
}
use sogang_university.Kernel.{Thread, Threads, write_thread, aged, update_aging}
use sogang_university.Kernel.Queue.{IsSorted, Without, IsDistinct, write_thread_other}
use sogang_university.Kernel.Inv.{InRange}

pos_suc : (n : ℕ) → pos n +ℤ pos 1 ≡ pos (n + 1)
unfolding ◌+ℤ◌
pos_suc n = ground arith

-- Inside the range one up, and not above PRI_MAX.
pub aged_lem : (p : ℤ) → InRange p → aged p ≡ (if ltb_ℤ p (pos 63) then p +ℤ pos 1 else pos 63)
unfolding aged
aged_lem (pos n) h = rw (pos_suc n, wrap_lem (pos (n + 1)) (omega arith)) (ground arith)
aged_lem (negsuc n) h = absurd (omega arith)

pub aged-InRange : (p : ℤ) → InRange p → InRange (aged p)
aged-InRange p h = rw (aged_lem p h) (ground (arith, +ℤ_parts p (pos 1)))

pub aged_mono : (p q : ℤ) → InRange p → InRange q → p ≤ℤ q → aged p ≤ℤ aged q
aged_mono p q h k le =
    rw (aged_lem p h, aged_lem q k) (ground (arith, +ℤ_parts p (pos 1), +ℤ_parts q (pos 1)))

pub update_aging_other : (l : List ℕ) (f : Threads) (x : ℕ) → Without x l → update_aging l f x ≡ f x
unfolding update_aging
update_aging_other [] f x w = refl
update_aging_other (t ∷ l) f x w =
    update_aging_other l (write_thread f t (record (f t) { priority = aged (f t).priority })) x w.1
    ∙ write_thread_other f t (record (f t) { priority = aged (f t).priority }) x (λ e. w.0 (sym e))

pub update_aging_status :
    (l : List ℕ) (f : Threads) (x : ℕ) → (update_aging l f x).status ≡ (f x).status
unfolding update_aging
update_aging_status [] f x = refl
update_aging_status (t ∷ l) f x =
    update_aging_status l (write_thread f t (record (f t) { priority = aged (f t).priority })) x
    ∙ same
  where
    same :
        (write_thread f t (record (f t) { priority = aged (f t).priority }) x).status ≡ (f x).status
    same = elim (Bool-cases (t == x)) [
      | inl e ↦ let eq : t ≡ x = ground arith in rw (e, eq)
      | inr e ↦ rw e
    ]

pub update_aging_range :
    (l : List ℕ) (f : Threads)
    → ((x : ℕ) → InRange (f x).priority)
    → (x : ℕ) → InRange (update_aging l f x).priority
unfolding update_aging
update_aging_range [] f h x = h x
update_aging_range (t ∷ l) f h x =
    update_aging_range l (write_thread f t (record (f t) { priority = aged (f t).priority })) step x
  where
    step :
        (y : ℕ)
        → InRange (write_thread f t (record (f t) { priority = aged (f t).priority }) y).priority
    step y = elim (Bool-cases (t == y)) [
      | inl e ↦ rw e (aged-InRange (f t).priority (h t))
      | inr e ↦ rw e (h y)
    ]

All-map2 :
    (P Q R : ℕ → Type 0) → ((x : ℕ) → P x → Q x → R x) → (l : List ℕ) → All P l → All Q l → All R l
All-map2 P Q R h [] a b = tt
All-map2 P Q R h (x ∷ l) a b = (h x a.0 b.0, All-map2 P Q R h l a.1 b.1)

-- Each thread of the list ages once.
pub update_aging_lem :
    (l : List ℕ) (f : Threads)
    → IsDistinct l
    → All (λ x. (update_aging l f x).priority ≡ aged (f x).priority) l
unfolding update_aging
update_aging_lem [] f d = tt
update_aging_lem (t ∷ l) f d = (first, later (λ g. update_aging_lem l g d.1))
  where
    v : Thread
    v = record (f t) { priority = aged (f t).priority }

    first : (update_aging l (write_thread f t v) t).priority ≡ aged (f t).priority
    first = rw (update_aging_other l (write_thread f t v) t d.0) (ground arith)

    later :
        ((g : Threads) → All (λ x. (update_aging l g x).priority ≡ aged (g x).priority) l)
        → All (λ x. (update_aging l (write_thread f t v) x).priority ≡ aged (f x).priority) l
    later each =
        All-map2
          (λ x.
            (update_aging l (write_thread f t v) x).priority ≡ aged (write_thread f t v x).priority)
          (λ x. t ≢ x) (λ x. (update_aging l (write_thread f t v) x).priority ≡ aged (f x).priority)
          (λ x e ne. e ∙ ap (λ z. aged z.priority) (write_thread_other f t v x ne)) l
          (each (write_thread f t v)) d.0

-- The order stays.
aged-IsSorted :
    (f g : Threads)
    → ((x : ℕ) → InRange (f x).priority)
    → (l : List ℕ) → All (λ x. (g x).priority ≡ aged (f x).priority) l
    → IsSorted f l
    → IsSorted g l
aged-IsSorted f g r [] a h = tt
aged-IsSorted f g r (x ∷ l) a h = (
  All-map2 (λ y. (g y).priority ≡ aged (f y).priority) (λ y. (f y).priority ≤ℤ (f x).priority)
      (λ y. (g y).priority ≤ℤ (g x).priority)
      (λ y e le. rw (e, a.0) (aged_mono (f y).priority (f x).priority (r y) (r x) le)) l a.1 h.0,
  aged-IsSorted f g r l a.1 h.1,
)

pub update_aging-IsSorted :
    (l : List ℕ) (f : Threads)
    → ((x : ℕ) → InRange (f x).priority)
    → IsDistinct l
    → IsSorted f l
    → IsSorted (update_aging l f) l
update_aging-IsSorted l f r d h = aged-IsSorted f (update_aging l f) r l (update_aging_lem l f d) h

-- A number of runs of update_aging on the same ready list.
pub rounds : ℕ → List ℕ → Threads → Threads
rounds zero l f = f
rounds (suc n) l f = rounds n l (update_aging l f)

rounds_bound :
    (n m : ℕ) (l : List ℕ) (f : Threads)
    → n + m ≡ 63
    → IsDistinct l
    → ((x : ℕ) → InRange (f x).priority)
    → All (λ x. pos m ≤ℤ (f x).priority) l
    → All (λ x. (rounds n l f x).priority ≡ pos 63) l
unfolding rounds
rounds_bound zero m l f h d r a =
    All-map2 (λ x. pos m ≤ℤ (f x).priority) (λ x. pos m ≤ℤ (f x).priority)
      (λ x. (f x).priority ≡ pos 63) (λ x le b. let top = r x in omega (arith, eq_of_parts)) l a a
rounds_bound (suc n) m l f h d r a =
    rounds_bound n (m + 1) l (update_aging l f) (omega arith) d (update_aging_range l f r) (
      All-map2 (λ x. pos m ≤ℤ (f x).priority)
        (λ x. (update_aging l f x).priority ≡ aged (f x).priority)
        (λ x. pos (m + 1) ≤ℤ (update_aging l f x).priority)
        (λ x le e.
          rw (e, aged_lem (f x).priority (r x)) (ground (arith, +ℤ_parts (f x).priority (pos 1))))
        l a (update_aging_lem l f d))

rounds_other : (n : ℕ) (l : List ℕ) (f : Threads) (x : ℕ) → Without x l → rounds n l f x ≡ f x
unfolding rounds
rounds_other zero l f x w = refl
rounds_other (suc n) l f x w = rounds_other n l (update_aging l f) x w ∙ update_aging_other l f x w

-- update_aging run 63 times on the same ready list, of distinct threads, where all priorities are from
-- PRI_MIN to PRI_MAX: each thread of the list then has PRI_MAX, and every other is as it was.
pub aging_rises :
    (l : List ℕ) (f : Threads)
    → IsDistinct l
    → ((x : ℕ) → InRange (f x).priority)
    → All (λ x. (rounds 63 l f x).priority ≡ pos 63) l
      × ((x : ℕ) → Without x l → rounds 63 l f x ≡ f x)
aging_rises l f d r = (rounds_bound 63 0 l f refl d r (start l), rounds_other 63 l f)
  where
    start : (k : List ℕ) → All (λ x. pos 0 ≤ℤ (f x).priority) k
    start [] = tt
    start (x ∷ k) = ((r x).0, start k)
