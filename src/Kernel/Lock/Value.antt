-- ===== src/Kernel/Lock/Value.antt =====
-- What the operations of a semaphore do to its value.
use sogang_university.Shared.{
  ℕ, ◌+◌, ◌-◌, ◌%◌, ◌^◌, ◌≡◌, ◌≢◌, refl, sym, ap, ◌∙◌, arith, inl, inr, true, false, Bool-cases,
  ◌==◌, Option, none, some, List, [], ◌∷◌,
}
use sogang_university.Kernel.{Kernel, thread_unblock}
use sogang_university.Kernel.Semaphore.{
  Semaphore, sema_down, sema_try_down, sema_up, raised, highest, list_remove,
}
use sogang_university.Kernel.Lock.{}

pub sema_down-waits :
    (k k' : Kernel) (s m : Semaphore) → sema_down k s ≡ (false, k', m) → m.value ≡ s.value
unfolding sema_down
sema_down-waits k k' s m e = elim (Bool-cases (s.value == 0)) [
  | inl z ↦ let f : (sema_down k s).2.value ≡ s.value = rw z refl in ap (λ r. r.2.value) (sym e) ∙ f
  | inr z ↦
      let f : (sema_down k s).0 ≡ true = rw z refl in
      let g : true ≡ false = sym f ∙ ap (λ r. r.0) e in ground (arith, g)
]

pub sema_down-takes :
    (k k' : Kernel) (s m : Semaphore)
    → sema_down k s ≡ (true, k', m)
    → (s.value ≢ 0) × (m.value ≡ s.value - 1)
unfolding sema_down
sema_down-takes k k' s m e = elim (Bool-cases (s.value == 0)) [
  | inl z ↦
      let f : (sema_down k s).0 ≡ false = rw z refl in
      let g : false ≡ true = sym f ∙ ap (λ r. r.0) e in ground (arith, g)
  | inr z ↦
      let f : (sema_down k s).2.value ≡ s.value - 1 = rw z refl in
      (ground (arith, z), ap (λ r. r.2.value) (sym e) ∙ f)
]

pub sema_try_down-takes :
    (s m : Semaphore) → sema_try_down s ≡ (true, m) → (s.value ≢ 0) × (m.value ≡ s.value - 1)
unfolding sema_try_down
sema_try_down-takes s m e = elim (Bool-cases (s.value == 0)) [
  | inl z ↦
      let f : (sema_try_down s).0 ≡ false = rw z refl in
      let g : false ≡ true = sym f ∙ ap (λ r. r.0) e in ground (arith, g)
  | inr z ↦
      let f : (sema_try_down s).1.value ≡ s.value - 1 = rw z refl in
      (ground (arith, z), ap (λ r. r.1.value) (sym e) ∙ f)
]

abbrev value_of : Option (Kernel × Semaphore) → ℕ
value_of none = 0
value_of (some r) = r.1.value

abbrev after_unblock : Option Kernel → Semaphore → List ℕ → Option (Kernel × Semaphore)
after_unblock o s w = elim o [ none ↦ none | some k ↦ some (k, raised s w) ]

after_unblock-value :
    (o : Option Kernel) (s : Semaphore) (w : List ℕ) (r : Kernel × Semaphore)
    → after_unblock o s w ≡ some r
    → r.1.value ≡ (s.value + 1) % 2 ^ 32
after_unblock-value none s w r e = ground (arith, e)
after_unblock-value (some k) s w r e = ap value_of (sym e)

pub sema_up-value :
    (k : Kernel) (s : Semaphore) (r : Kernel × Semaphore)
    → sema_up k s ≡ some r
    → r.1.value ≡ (s.value + 1) % 2 ^ 32
unfolding sema_up
sema_up-value k s r e =
    let motive = λ (w : List ℕ).
      sema_up k (record s { waiters = w }) ≡ some r → r.1.value ≡ (s.value + 1) % 2 ^ 32 in
    elim s.waiters as motive [
      | [] ↦ λ e. ap value_of (sym e)
      | t ∷ l ↦
          let chosen = highest k.threads t (t ∷ l) in
          after_unblock-value (thread_unblock chosen k) s (list_remove chosen (t ∷ l)) r
    ]
      e
