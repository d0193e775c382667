-- ===== src/Kernel/Choice.antt =====
-- Which thread runs.
use sogang_university.Shared.{ℕ, ◌≡◌, refl, inl, inr, Bool-cases, ◌==◌, List, [], ◌∷◌, All}
use mathlib.Core.Path.{subst}
use sogang_university.Shared.Int.{◌≤ℤ◌}
use sogang_university.Kernel.{
  running, ready, Threads, set_status, Kernel, schedule, thread_yield, list_insert_ordered,
}
use sogang_university.Kernel.Queue.{
  IsSorted, Without, IsDistinct, All-map, set_status_priority, IsSorted-ext, insert-IsSorted,
}
use sogang_university.Kernel.Inv.{current_ready, current_sleep}
use sogang_university.Kernel.Steps.{Reachable, Reachable-Inv}

-- The first of a list in order is taken.
schedule_highest :
    (k : Kernel)
    → IsSorted k.threads k.ready_list
    → All
        (λ y.
          ((schedule k).threads y).priority ≤ℤ ((schedule k).threads (schedule k).current).priority)
        (schedule k).ready_list
unfolding schedule
schedule_highest k h = go k.ready_list refl
  where
    go :
        (l : List ℕ)
        → k.ready_list ≡ l
        → All
            (λ y.
              ((schedule k).threads y).priority
              ≤ℤ ((schedule k).threads (schedule k).current).priority)
            (schedule k).ready_list
    go [] e = rw e tt
    go (t ∷ l) e =
        let sorted : IsSorted k.threads (t ∷ l) = subst (λ r. IsSorted k.threads r) e h in
        let f = set_status k.threads t running in
        rw e (
          All-map (λ y. (k.threads y).priority ≤ℤ (k.threads t).priority)
            (λ y. (f y).priority ≤ℤ (f t).priority)
            (λ y le.
              rw
                (
                  ← set_status_priority k.threads t running y,
                  ← set_status_priority k.threads t running t,
                )
                le)
            l sorted.0)

-- In every state that the operations can bring about, the ready list is in the order of the
-- priorities and holds no thread twice, the running thread is in neither list, and after a yield
-- no ready thread has a higher priority than the running one.
pub thread_yield_highest :
    (k : Kernel)
    → Reachable k
    → IsSorted k.threads k.ready_list
      × IsDistinct k.ready_list
      × Without k.current k.ready_list
      × Without k.current k.sleep_list
      × All
          (λ y.
            ((thread_yield k).threads y).priority
            ≤ℤ ((thread_yield k).threads (thread_yield k).current).priority)
          (thread_yield k).ready_list
unfolding thread_yield
thread_yield_highest k r =
    let h = Reachable-Inv r in
    (
      h.waiting.sorted,
      h.waiting.queue.0,
      current_ready k h,
      current_sleep k h,
      elim (Bool-cases (k.current == k.idle_thread)) [
        | inl e ↦
            rw (thread_yield, e)
              (schedule_highest (record k { threads = f })
                (IsSorted-ext k.threads f same k.ready_list h.waiting.sorted))
        | inr e ↦
            rw (thread_yield, e)
              (schedule_highest
                (record k {
                  ready_list = list_insert_ordered k.threads k.current k.ready_list;
                  threads = f;
                })
                (IsSorted-ext k.threads f same
                  (list_insert_ordered k.threads k.current k.ready_list)
                  (insert-IsSorted k.threads k.current k.ready_list h.waiting.sorted)))
      ],
    )
  where
    f : Threads
    f = set_status k.threads k.current ready

    same : (x : ℕ) → (k.threads x).priority ≡ (f x).priority
    same = set_status_priority k.threads k.current ready
