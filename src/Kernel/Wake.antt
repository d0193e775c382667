-- ===== src/Kernel/Wake.antt =====
-- `timer_interrupt` wakes the threads whose time has come, and no others.
use sogang_university.Shared.{
  ℕ, ◌≡◌, ◌≢◌, refl, sym, ap, ◌∙◌, ◌⊎◌, arith, inl, inr, true, false, Bool-cases, ◌==◌,
  if◌then◌else◌, some, List, [], ◌∷◌, All, Any,
}
use mathlib.Core.Path.{subst}
use sogang_university.Shared.Int.{ℤ, ltb_ℤ, ◌≤ℤ◌}
use sogang_university.Kernel.{
  Status, ready, blocked, Threads, set_status, get_priority, Kernel, list_insert_ordered,
  thread_unblock, wake_loop,
}
use sogang_university.Kernel.Queue.{Without, IsQueue, write_thread_other, IsQueue-Without, All-map}
use sogang_university.Kernel.Inv.{Waiting, insert-Waiting, ready≢blocked}

-- The threads of a list whose time has not come.
abbrev pub asleep : Threads → ℤ → List ℕ → List ℕ
asleep f now [] = []
asleep f now (t ∷ l) = if ltb_ℤ now (f t).wakeup then t ∷ asleep f now l else asleep f now l

abbrev pub In : ℕ → List ℕ → Type 0
In x l = Any (λ y. x ≡ y) l

All-asleep :
    (P : ℕ → Type 0) (f : Threads) (now : ℤ) (l : List ℕ) → All P l → All P (asleep f now l)
All-asleep P f now [] a = tt
All-asleep P f now (t ∷ l) a = elim (Bool-cases (ltb_ℤ now (f t).wakeup)) [
  | inl e ↦ rw e (a.0, All-asleep P f now l a.1)
  | inr e ↦ rw e (All-asleep P f now l a.1)
]

pub In-insert :
    (f : Threads) (x y : ℕ) (l : List ℕ) → (x ≡ y) ⊎ In x l → In x (list_insert_ordered f y l)
unfolding list_insert_ordered
In-insert f x y [] h = h
In-insert f x y (e ∷ l) h = elim (Bool-cases (get_priority f y e)) [
  | inl c ↦ rw c h
  | inr c ↦ rw c (elim h [
    | inl q ↦ inr (In-insert f x y l (inl q))
    | inr m ↦ elim m [ inl q ↦ inl q | inr n ↦ inr (In-insert f x y l (inr n)) ]
  ])
]

asleep_write :
    (f : Threads) (now : ℤ) (x : ℕ) (s : Status) (l : List ℕ)
    → asleep (set_status f x s) now l ≡ asleep f now l
asleep_write f now x s [] = refl
asleep_write f now x s (t ∷ l) = elim (Bool-cases (x == t)) [
  | inl e ↦ let same : x ≡ t = ground arith in rw (e, same, asleep_write f now x s l)
  | inr e ↦ rw (e, asleep_write f now x s l)
]

-- What the loop leaves.
pub data Wakes (l : List ℕ) (k : Kernel) : Type 0 where
  wakes :
      (k' : Kernel)
      → wake_loop l k ≡ some (asleep k.threads k.ticks l, k')
      → Waiting (record k' { sleep_list = asleep k.threads k.ticks l })
      → (k'.current ≡ k.current)
        × (k'.idle_thread ≡ k.idle_thread)
        × (k'.thread_ticks ≡ k.thread_ticks)
      → ((x : ℕ) → Without x l → k'.threads x ≡ k.threads x)
      → ((x : ℕ) → In x k.ready_list → In x k'.ready_list)
      → All (λ x. (k.threads x).wakeup ≤ℤ k.ticks → In x k'.ready_list) l
      → Wakes l k

wake_first :
    (t : ℕ) (l : List ℕ) (k : Kernel)
    → ltb_ℤ k.ticks (k.threads t).wakeup ≡ true
    → Without t l
    → IsQueue k.idle_thread blocked k.threads (t ∷ l)
    → Wakes l k
    → Wakes (t ∷ l) k
unfolding wake_loop
wake_first t l k late w q (wakes k' run h same frame keeps due) =
    let now : k'.threads t ≡ k.threads t = frame t w in
    wakes k' (rw (late, run))
      (rw late (record {
        sorted = h.sorted;
        queue = h.queue;
        sleepers = (
          (All-asleep (λ y. t ≢ y) k.threads k.ticks l w, h.sleepers.0),
          ((ap (λ z. z.status) now ∙ q.1.0.0, λ e. q.1.0.1 (sym same.1 ∙ e)), h.sleepers.1),
        );
        range = h.range;
      }))
      same (λ x wx. frame x wx.1) keeps ((λ le. absurd (ground arith)), due)

set_status_wakeup :
    (f : Threads) (x : ℕ) (s : Status) (y : ℕ) → (set_status f x s y).wakeup ≡ (f y).wakeup
set_status_wakeup f x s y = elim (Bool-cases (x == y)) [
  | inl e ↦ let same : x ≡ y = ground arith in rw (e, same)
  | inr e ↦ rw e
]

-- The kernel after `t` was unblocked.
abbrev pub unblocked : ℕ → Kernel → Kernel
unblocked t k = record k {
  ready_list = list_insert_ordered k.threads t k.ready_list;
  threads = set_status k.threads t ready;
}

wake_due :
    (t : ℕ) (l : List ℕ) (k : Kernel)
    → ltb_ℤ k.ticks (k.threads t).wakeup ≡ false
    → (k.threads t).status ≡ blocked
    → Wakes l (unblocked t k)
    → Wakes (t ∷ l) k
unfolding wake_loop thread_unblock
wake_due t l k now is_blocked (wakes k' run h same frame keeps due) =
    let kept : asleep (set_status k.threads t ready) k.ticks l ≡ asleep k.threads k.ticks l =
      asleep_write k.threads k.ticks t ready l in
    wakes k'
      (rw (now, is_blocked) (subst (λ r. wake_loop l (unblocked t k) ≡ some (r, k')) kept run))
      (rw now (subst (λ r. Waiting (record k' { sleep_list = r })) kept h)) same
      (λ x w.
        frame x w.1
        ∙ write_thread_other k.threads t (record (k.threads t) { status = ready }) x
            (λ e. w.0 (sym e)))
      (λ x m. keeps x (In-insert k.threads x t k.ready_list (inr m)))
      (
        (λ le. keeps t (In-insert k.threads t t k.ready_list (inl refl))),
        All-map (λ x. (set_status k.threads t ready x).wakeup ≤ℤ k.ticks → In x k'.ready_list)
            (λ x. (k.threads x).wakeup ≤ℤ k.ticks → In x k'.ready_list)
            (λ x h le. h (rw (set_status_wakeup k.threads t ready x) le)) l due,
      )

-- The loop ends, with what is promised.
pub wake_loop-Wakes : (l : List ℕ) (k : Kernel) → Waiting (record k { sleep_list = l }) → Wakes l k
unfolding wake_loop
wake_loop-Wakes [] k h = wakes k refl h (refl, refl, refl) (λ x w. refl) (λ x m. m) tt
wake_loop-Wakes (t ∷ l) k h = elim (Bool-cases (ltb_ℤ k.ticks (k.threads t).wakeup)) [
  | inl e ↦ wake_first t l k e h.sleepers.0.0 h.sleepers (
      wake_loop-Wakes l k (record {
        sorted = h.sorted;
        queue = h.queue;
        sleepers = (h.sleepers.0.1, h.sleepers.1.1);
        range = h.range;
      }))
  | inr e ↦ wake_due t l k e h.sleepers.1.0.0 (
      wake_loop-Wakes l (unblocked t k) (
        insert-Waiting (record k { sleep_list = l }) t
          (IsQueue-Without k.idle_thread ready k.threads t k.ready_list
            (λ r. ready≢blocked (sym r ∙ h.sleepers.1.0.0)) h.queue)
          h.sleepers.0.0 h.sleepers.1.0.1
          (record {
            sorted = h.sorted;
            queue = h.queue;
            sleepers = (h.sleepers.0.1, h.sleepers.1.1);
            range = h.range;
          })))
]
