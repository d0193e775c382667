-- ===== src/Kernel/Inv.antt =====
-- What holds of the scheduler between its operations.
use sogang_university.Shared.{
  ℕ, ◌≡◌, ◌≢◌, refl, sym, ◌∙◌, arith, inl, inr, Bool-cases, ◌==◌, List, [], ◌∷◌,
}
use mathlib.Core.Path.{subst}
use sogang_university.Shared.Int.{ℤ, pos, ltb_ℤ, ◌≤ℤ◌}
use sogang_university.Kernel.{
  Status, running, ready, blocked, dying, Thread, Threads, write_thread, set_status, Kernel,
  list_insert_ordered, schedule, thread_block, thread_yield, thread_exit, thread_set_priority,
}
use sogang_university.Kernel.Queue.{
  IsSorted, Without, IsQueue, All-insert, insert-IsSorted, insert-IsDistinct, IsSorted-write,
  IsQueue-write, IsSorted-ext, set_status_priority, IsQueue-Without, IsQueue-idle,
}

-- From PRI_MIN to PRI_MAX.
abbrev pub InRange : ℤ → Type 0
InRange p = (pos 0 ≤ℤ p) × (p ≤ℤ pos 63)

-- The ready list is in order, holds different ready threads; the sleep list holds different
-- blocked ones; the idle thread is in neither, and priorities are in range.
pub record Waiting (k : Kernel) : Type 0 where
  pub sorted : IsSorted k.threads k.ready_list
  pub queue : IsQueue k.idle_thread ready k.threads k.ready_list
  pub sleepers : IsQueue k.idle_thread blocked k.threads k.sleep_list
  pub range : (x : ℕ) → InRange (k.threads x).priority

-- And one thread is running.
pub record Inv (k : Kernel) : Type 0 where
  pub waiting : Waiting k
  pub now : (k.threads k.current).status ≡ running

pub set_status_self : (f : Threads) (x : ℕ) (s : Status) → (set_status f x s x).status ≡ s
set_status_self f x s = ground arith

pub ready≢blocked : ready ≢ blocked
ready≢blocked e = cc

running≢ready : running ≢ ready
running≢ready e = cc

running≢blocked : running ≢ blocked
running≢blocked e = cc

-- A change of the status of a thread that is in no list.
set_status-Waiting :
    (k : Kernel) (x : ℕ) (s : Status)
    → Without x k.ready_list
    → Without x k.sleep_list
    → Waiting k
    → Waiting (record k { threads = set_status k.threads x s })
set_status-Waiting k x s wr ws h = record {
  sorted =
      IsSorted-write k.threads x (record (k.threads x) { status = s }) k.ready_list wr h.sorted;
  queue =
      IsQueue-write k.threads x (record (k.threads x) { status = s }) k.idle_thread ready
        k.ready_list wr h.queue;
  sleepers =
      IsQueue-write k.threads x (record (k.threads x) { status = s }) k.idle_thread blocked
        k.sleep_list ws h.sleepers;
  range = λ y. rw (← set_status_priority k.threads x s y) (h.range y);
}

-- The thread `t` becomes the running one, with `l` left in the ready list.
switch-Inv :
    (k : Kernel) (t : ℕ) (l : List ℕ)
    → Without t l
    → Without t k.sleep_list
    → Waiting (record k { ready_list = l })
    → Inv (record k {
      ready_list = l;
      threads = set_status k.threads t running;
      current = t;
      thread_ticks = 0;
    })
switch-Inv k t l wr ws h =
    let h' = set_status-Waiting (record k { ready_list = l }) t running wr ws h in
    record {
      waiting = record {
        sorted = h'.sorted;
        queue = h'.queue;
        sleepers = h'.sleepers;
        range = h'.range;
      };
      now = set_status_self k.threads t running;
    }

pub schedule-Inv : (k : Kernel) → Waiting k → Inv (schedule k)
unfolding schedule
schedule-Inv k h = go k.ready_list refl
  where
    go : (l : List ℕ) → k.ready_list ≡ l → Inv (schedule k)
    go [] e = rw e (
        switch-Inv k k.idle_thread [] tt
          (IsQueue-idle k.idle_thread blocked k.threads k.sleep_list h.sleepers)
          (record { sorted = tt; queue = (tt, tt); sleepers = h.sleepers; range = h.range }))
    go (t ∷ l) e =
        let sorted : IsSorted k.threads (t ∷ l) = subst (λ r. IsSorted k.threads r) e h.sorted in
        let queue : IsQueue k.idle_thread ready k.threads (t ∷ l) =
          subst (λ r. IsQueue k.idle_thread ready k.threads r) e h.queue in
        let other : (k.threads t).status ≢ blocked = λ b. ready≢blocked (sym queue.1.0.0 ∙ b) in
        rw e (
          switch-Inv k t l queue.0.0
            (IsQueue-Without k.idle_thread blocked k.threads t k.sleep_list other h.sleepers)
            (record {
              sorted = sorted.1;
              queue = (queue.0.1, queue.1.1);
              sleepers = h.sleepers;
              range = h.range;
            }))

module _ (k : Kernel) (h : Inv k) where
  pub current_ready : Without k.current k.ready_list
  current_ready =
      IsQueue-Without k.idle_thread ready k.threads k.current k.ready_list
        (λ e. running≢ready (sym h.now ∙ e)) h.waiting.queue

  pub current_sleep : Without k.current k.sleep_list
  current_sleep =
      IsQueue-Without k.idle_thread blocked k.threads k.current k.sleep_list
        (λ e. running≢blocked (sym h.now ∙ e)) h.waiting.sleepers

  pub thread_block-Inv : Inv (thread_block k)
  unfolding thread_block
  thread_block-Inv =
      schedule-Inv (record k { threads = set_status k.threads k.current blocked })
        (set_status-Waiting k k.current blocked current_ready current_sleep h.waiting)

  pub thread_exit-Inv : Inv (thread_exit k)
  unfolding thread_exit
  thread_exit-Inv =
      schedule-Inv (record k { threads = set_status k.threads k.current dying })
        (set_status-Waiting k k.current dying current_ready current_sleep h.waiting)

-- The thread `x`, in no list and not the idle one, gets ready.
pub insert-Waiting :
    (k : Kernel) (x : ℕ)
    → Without x k.ready_list
    → Without x k.sleep_list
    → k.idle_thread ≢ x
    → Waiting k
    → Waiting (record k {
      ready_list = list_insert_ordered k.threads x k.ready_list;
      threads = set_status k.threads x ready;
    })
insert-Waiting k x wr ws ne h =
    let h' = set_status-Waiting k x ready wr ws h in
    let f' = set_status k.threads x ready in
    record {
      sorted =
          IsSorted-ext k.threads f' (set_status_priority k.threads x ready)
            (list_insert_ordered k.threads x k.ready_list)
            (insert-IsSorted k.threads x k.ready_list h.sorted);
      queue = (
        insert-IsDistinct k.threads x k.ready_list wr h.queue.0,
        All-insert (λ y. ((f' y).status ≡ ready) × (k.idle_thread ≢ y)) k.threads x k.ready_list
            (set_status_self k.threads x ready, ne) h'.queue.1,
      );
      sleepers = h'.sleepers;
      range = h'.range;
    }

pub thread_yield-Inv : (k : Kernel) → Inv k → Inv (thread_yield k)
unfolding thread_yield
thread_yield-Inv k h = elim (Bool-cases (k.current == k.idle_thread)) [
  | inl e ↦ rw e (
      schedule-Inv (record k { threads = set_status k.threads k.current ready })
        (set_status-Waiting k k.current ready (current_ready k h) (current_sleep k h) h.waiting))
  | inr e ↦
      let ne : k.idle_thread ≢ k.current = ground arith in
      rw e (
        schedule-Inv
          (record k {
            ready_list = list_insert_ordered k.threads k.current k.ready_list;
            threads = set_status k.threads k.current ready;
          })
          (insert-Waiting k k.current (current_ready k h) (current_sleep k h) ne h.waiting))
]

pub thread_set_priority-Inv :
    (p : ℤ) (k : Kernel) → InRange p → Inv k → Inv (thread_set_priority p k)
unfolding thread_set_priority
thread_set_priority-Inv p k r h = elim (Bool-cases (ltb_ℤ p (k.threads k.current).priority)) [
  | inl e ↦ rw e (thread_yield-Inv k' h')
  | inr e ↦ rw e h'
]
  where
    v : Thread
    v = record (k.threads k.current) { priority = p }

    k' : Kernel
    k' = record k { threads = write_thread k.threads k.current v }

    range : (x : ℕ) → InRange (write_thread k.threads k.current v x).priority
    range x = elim (Bool-cases (k.current == x)) [
      | inl e ↦ rw e r
      | inr e ↦ rw e (h.waiting.range x)
    ]

    h' : Inv k'
    h' = record {
      waiting = record {
        sorted =
            IsSorted-write k.threads k.current v k.ready_list (current_ready k h) h.waiting.sorted;
        queue =
            IsQueue-write k.threads k.current v k.idle_thread ready k.ready_list (current_ready k h)
              h.waiting.queue;
        sleepers =
            IsQueue-write k.threads k.current v k.idle_thread blocked k.sleep_list
              (current_sleep k h) h.waiting.sleepers;
        range = range;
      };
      now = ground (arith, h.now);
    }
