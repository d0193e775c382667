-- ===== src/Kernel/Semaphore/Wakeup.antt =====
-- `sema_up` wakes a thread of the highest priority.
use sogang_university.Shared.{
  ℕ, ◌≡◌, refl, sym, arith, inl, inr, true, false, Bool-cases, some, List, [], ◌∷◌, All,
}
use mathlib.Core.Path.{subst}
use sogang_university.Shared.Int.{ltb_ℤ, ◌≤ℤ◌}
use sogang_university.Kernel.{blocked, Threads, Kernel, thread_unblock}
use sogang_university.Kernel.Wake.{In, In-insert, unblocked}
use sogang_university.Kernel.Semaphore.{Semaphore, highest, list_remove, raised, sema_up}

-- The two cases of a round.
highest-true :
    (f : Threads) (best t : ℕ) (l : List ℕ)
    → ltb_ℤ (f best).priority (f t).priority ≡ true
    → highest f best (t ∷ l) ≡ highest f t l
unfolding highest
highest-true f best t l e = rw e

highest-false :
    (f : Threads) (best t : ℕ) (l : List ℕ)
    → ltb_ℤ (f best).priority (f t).priority ≡ false
    → highest f best (t ∷ l) ≡ highest f best l
unfolding highest
highest-false f best t l e = rw e

-- The thread is above the others.
abbrev Above : Threads → ℕ → List ℕ → Type 0
Above f x l = All (λ y. (f y).priority ≤ℤ (f x).priority) l

highest-Above : (f : Threads) (best : ℕ) (l : List ℕ) → Above f (highest f best l) (best ∷ l)
unfolding highest
highest-Above f best [] = (omega arith, tt)
highest-Above f best (t ∷ l) = elim (Bool-cases (ltb_ℤ (f best).priority (f t).priority)) [
  | inl e ↦
      let h = highest-Above f t l in
      let top : (f best).priority ≤ℤ (f (highest f t l)).priority = ground (arith, h.0, e) in
      subst (λ x. Above f x (best ∷ t ∷ l)) (sym (highest-true f best t l e)) (top, h)
  | inr e ↦
      let h = highest-Above f best l in
      let low : (f t).priority ≤ℤ (f (highest f best l)).priority = ground (arith, h.0, e) in
      subst (λ x. Above f x (best ∷ t ∷ l)) (sym (highest-false f best t l e)) (h.0, (low, h.1))
]

highest-In : (f : Threads) (best : ℕ) (l : List ℕ) → In (highest f best l) (best ∷ l)
unfolding highest
highest-In f best [] = inl refl
highest-In f best (t ∷ l) = elim (Bool-cases (ltb_ℤ (f best).priority (f t).priority)) [
  | inl e ↦
      subst (λ x. In x (best ∷ t ∷ l)) (sym (highest-true f best t l e)) (inr (highest-In f t l))
  | inr e ↦
      subst (λ x. In x (best ∷ t ∷ l)) (sym (highest-false f best t l e))
        (elim (highest-In f best l) [ inl q ↦ inl q | inr m ↦ inr (inr m) ])
]

All_In : (P : ℕ → Type 0) (x : ℕ) (l : List ℕ) → In x l → All P l → P x
All_In P x [] m a = absurd m
All_In P x (y ∷ l) (inl e) a = rw e a.0
All_In P x (y ∷ l) (inr m) a = All_In P x l m a.1

thread_unblock_blocked :
    (x : ℕ) (k : Kernel)
    → (k.threads x).status ≡ blocked
    → thread_unblock x k ≡ some (unblocked x k)
unfolding thread_unblock
thread_unblock_blocked x k e = rw (thread_unblock, e)

-- With threads that wait, all of them blocked, `sema_up` fails no assertion: it takes one of the
-- highest priority among them off the list, puts it in the ready list and raises the value, and
-- the thread that runs goes on.
pub sema_up-highest :
    (k : Kernel) (s : Semaphore) (t : ℕ) (l : List ℕ)
    → s.waiters ≡ t ∷ l
    → All (λ x. (k.threads x).status ≡ blocked) (t ∷ l)
    → (x : ℕ) × (k' : Kernel) × (sema_up k s ≡ some (k', raised s (list_remove x (t ∷ l))))
      × In x (t ∷ l)
      × All (λ y. (k.threads y).priority ≤ℤ (k.threads x).priority) (t ∷ l)
      × In x k'.ready_list
      × (k'.current ≡ k.current)
unfolding sema_up
sema_up-highest k s t l e a =
    let x = highest k.threads t (t ∷ l) in
    let above = highest-Above k.threads t (t ∷ l) in
    let found : In x (t ∷ l) = elim (highest-In k.threads t (t ∷ l)) [
      | inl q ↦ inl q
      | inr m ↦ m
    ] in
    let is_blocked = All_In (λ y. (k.threads y).status ≡ blocked) x (t ∷ l) found a in
    let run = thread_unblock_blocked x k is_blocked in
    (
      x,
      unblocked x k,
      rw (sema_up, e, run),
      found,
      above.1,
      In-insert k.threads x x k.ready_list (inl refl),
      refl,
    )
