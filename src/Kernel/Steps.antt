-- ===== src/Kernel/Steps.antt =====
-- The operations of the scheduler in any order.
use sogang_university.Shared.{
  ℕ, ◌≡◌, ◌≢◌, refl, sym, ap, ◌∙◌, arith, inl, inr, false, Bool-cases, ◌==◌, none, some, List, [],
  ◌∷◌, ◌++◌, All,
}
use mathlib.Core.Path.{subst}
use sogang_university.Shared.Int.{ℤ, pos, ◌≤ℤ◌, ◌+ℤ◌}
use sogang_university.Kernel.{
  Status, running, ready, blocked, dying, Thread, Threads, write_thread, set_status, Kernel,
  thread_unblock, thread_block, thread_yield, thread_exit, thread_set_priority, update_aging,
  thread_tick, timer_interrupt, intr_handler, timer_sleep,
}
use sogang_university.Kernel.Queue.{
  Without, IsDistinct-snoc, All-snoc, All-map, IsSorted-write, IsQueue-write, IsQueue-Without,
}
use sogang_university.Kernel.Inv.{
  InRange, Waiting, Inv, schedule-Inv, thread_block-Inv, thread_exit-Inv, thread_yield-Inv,
  thread_set_priority-Inv, insert-Waiting, ready≢blocked, current_ready, current_sleep,
}
use sogang_university.Kernel.Aging.{update_aging_status, update_aging_range, update_aging-IsSorted}
use sogang_university.Kernel.Wake.{wakes, asleep, In, wake_loop-Wakes, unblocked}

thread_tick-Inv : (k : Kernel) → Inv k → Inv (thread_tick k)
unfolding thread_tick
thread_tick-Inv k h = record {
  waiting = record {
    sorted =
        update_aging-IsSorted k.ready_list k.threads h.waiting.range h.waiting.queue.0
          h.waiting.sorted;
    queue = (h.waiting.queue.0, still k.ready_list ready h.waiting.queue.1);
    sleepers = (h.waiting.sleepers.0, still k.sleep_list blocked h.waiting.sleepers.1);
    range = update_aging_range k.ready_list k.threads h.waiting.range;
  };
  now = update_aging_status k.ready_list k.threads k.current ∙ h.now;
}
  where
    still :
        (l : List ℕ) (s : Status)
        → All (λ x. ((k.threads x).status ≡ s) × (k.idle_thread ≢ x)) l
        → All (λ x. ((update_aging k.ready_list k.threads x).status ≡ s) × (k.idle_thread ≢ x)) l
    still l s a =
        All-map (λ x. ((k.threads x).status ≡ s) × (k.idle_thread ≢ x))
          (λ x. ((update_aging k.ready_list k.threads x).status ≡ s) × (k.idle_thread ≢ x))
          (λ x p. (update_aging_status k.ready_list k.threads x ∙ p.0, p.1)) l a

-- What a timer interrupt leaves.
data Ticks (k : Kernel) : Type 0 where
  ticks_on :
      (k' : Kernel)
      → timer_interrupt k ≡ some k'
      → Inv k'
      → k'.current ≡ k.current
      → k'.sleep_list ≡ asleep k.threads (k.ticks +ℤ pos 1) k.sleep_list
      → All (λ x. (k.threads x).wakeup ≤ℤ (k.ticks +ℤ pos 1) → In x k'.ready_list) k.sleep_list
      → Ticks k

timer_interrupt-Ticks : (k : Kernel) → Inv k → Ticks k
unfolding timer_interrupt thread_tick
timer_interrupt-Ticks k h =
    elim (wake_loop-Wakes k.sleep_list k1 (record {
      sorted = h.waiting.sorted;
      queue = h.waiting.queue;
      sleepers = h.waiting.sleepers;
      range = h.waiting.range;
    })) [
      | wakes k' run w same frame keeps due ↦
          let k2 = record k' { sleep_list = asleep k.threads (k.ticks +ℤ pos 1) k.sleep_list } in
          let now : (k2.threads k2.current).status ≡ running =
            rw same.0 (rw (frame k.current (current_sleep k h)) h.now) in
          let inv : Inv k2 = record { waiting = w; now = now } in
          ticks_on (thread_tick k2) (rw (timer_interrupt, run)) (thread_tick-Inv k2 inv) same.0 refl
            due
    ]
  where
    k1 : Kernel
    k1 = record k { ticks = k.ticks +ℤ pos 1 }

intr_handler-Inv : (k : Kernel) → Inv k → (k' : Kernel) × (intr_handler k ≡ some k') × Inv k'
unfolding intr_handler
intr_handler-Inv k h =
    elim (timer_interrupt-Ticks (record k { yield_on_return = false })
      (record {
        waiting = record {
          sorted = h.waiting.sorted;
          queue = h.waiting.queue;
          sleepers = h.waiting.sleepers;
          range = h.waiting.range;
        };
        now = h.now;
      })) [
        | ticks_on k' run inv cur kept due ↦ elim (Bool-cases k'.yield_on_return) [
          | inl e ↦ (thread_yield k', rw (intr_handler, run, e), thread_yield-Inv k' inv)
          | inr e ↦ (k', rw (intr_handler, run, e), inv)
        ]
      ]

write_range :
    (f : Threads) (x : ℕ) (v : Thread)
    → InRange v.priority
    → ((y : ℕ) → InRange (f y).priority)
    → (y : ℕ) → InRange (write_thread f x v y).priority
write_range f x v r h y = elim (Bool-cases (x == y)) [ inl e ↦ rw e r | inr e ↦ rw e (h y) ]

timer_sleep-Inv : (n : ℤ) (k : Kernel) → k.idle_thread ≢ k.current → Inv k → Inv (timer_sleep n k)
unfolding timer_sleep thread_block
timer_sleep-Inv n k ne h = schedule-Inv asleep_now slept
  where
    f : Threads
    f = write_thread k.threads k.current (record (k.threads k.current) { wakeup = k.ticks +ℤ n })

    v : Thread
    v = record (f k.current) { status = blocked }

    asleep_now : Kernel
    asleep_now = record k {
      threads = set_status f k.current blocked;
      sleep_list = k.sleep_list ++ (k.current ∷ []);
    }

    g : Thread
    g = record (k.threads k.current) { wakeup = k.ticks +ℤ n }

    f_range : (x : ℕ) → InRange (f x).priority
    f_range = write_range k.threads k.current g (h.waiting.range k.current) h.waiting.range

    slept : Waiting asleep_now
    slept = record {
      sorted =
          IsSorted-write f k.current v k.ready_list (current_ready k h) (
            IsSorted-write k.threads k.current g k.ready_list (current_ready k h) h.waiting.sorted);
      queue = IsQueue-write f k.current v k.idle_thread ready k.ready_list (current_ready k h) (
          IsQueue-write k.threads k.current g k.idle_thread ready k.ready_list (current_ready k h)
            h.waiting.queue);
      sleepers = (
        IsDistinct-snoc k.current k.sleep_list (current_sleep k h) h.waiting.sleepers.0,
        All-snoc (λ x. ((set_status f k.current blocked x).status ≡ blocked) × (k.idle_thread ≢ x))
            k.current k.sleep_list (ground arith, ne)
            (IsQueue-write f k.current v k.idle_thread blocked k.sleep_list (current_sleep k h) (
              IsQueue-write k.threads k.current g k.idle_thread blocked k.sleep_list
                (current_sleep k h) h.waiting.sleepers)).1,
      );
      range = write_range f k.current v (f_range k.current) f_range;
    }

some_eq : {a b : Kernel} → some a ≡ some b → a ≡ b
some_eq {a} {b} e = ap (λ o. elim o as (λ o. Kernel) [ none ↦ a | some c ↦ c ]) e

thread_unblock-Inv :
    (t : ℕ) (k k' : Kernel)
    → k.idle_thread ≢ t
    → Without t k.sleep_list
    → thread_unblock t k ≡ some k'
    → Inv k
    → Inv k'
unfolding thread_unblock
thread_unblock-Inv t k k' ne w e h = go (k.threads t).status refl
  where
    go : (s : Status) → (k.threads t).status ≡ s → Inv k'
    go blocked q =
        let ready' : Without t k.ready_list =
          IsQueue-Without k.idle_thread ready k.threads t k.ready_list
            (λ r. ready≢blocked (sym r ∙ q)) h.waiting.queue in
        let run : thread_unblock t k ≡ some (unblocked t k) = rw (thread_unblock, q) in
        let waits = insert-Waiting k t ready' w ne h.waiting in
        let runs : ((unblocked t k).threads k.current).status ≡ running =
          ground (arith, h.now, q) in
        subst (λ o. Inv o) (some_eq (sym run ∙ e)) (record { waiting = waits; now = runs })
    go running q = absurd (ground (arith, e, q))
    go ready q = absurd (ground (arith, e, q))
    go dying q = absurd (ground (arith, e, q))

-- Any operation of the running thread, or a timer interrupt. What is unblocked is a thread that
-- waits for something else than the timer.
pub data Step (k : Kernel) : Kernel → Type 0 where
  tick : (k' : Kernel) → intr_handler k ≡ some k' → Step k k'
  yield : Step k (thread_yield k)
  block : Step k (thread_block k)
  exit : Step k (thread_exit k)
  set_priority : (p : ℤ) → InRange p → Step k (thread_set_priority p k)
  sleep : (n : ℤ) → k.idle_thread ≢ k.current → Step k (timer_sleep n k)
  unblock :
      (t : ℕ) (k' : Kernel)
      → k.idle_thread ≢ t
      → Without t k.sleep_list
      → thread_unblock t k ≡ some k'
      → Step k k'

-- From a kernel with one thread that runs, and none that is ready or asleep.
pub data Reachable : Kernel → Type 0 where
  boot :
      (k : Kernel)
      → k.ready_list ≡ []
      → k.sleep_list ≡ []
      → (k.threads k.current).status ≡ running
      → ((x : ℕ) → InRange (k.threads x).priority)
      → Reachable k
  step : {k k' : Kernel} → Reachable k → Step k k' → Reachable k'

Step-Inv : (k k' : Kernel) → Step k k' → Inv k → Inv k'
Step-Inv k k' (tick k'' e) h =
    let (k1, run, inv) = intr_handler-Inv k h in subst (λ o. Inv o) (some_eq (sym run ∙ e)) inv
Step-Inv k k' yield h = thread_yield-Inv k h
Step-Inv k k' block h = thread_block-Inv k h
Step-Inv k k' exit h = thread_exit-Inv k h
Step-Inv k k' (set_priority p r) h = thread_set_priority-Inv p k r h
Step-Inv k k' (sleep n ne) h = timer_sleep-Inv n k ne h
Step-Inv k k' (unblock t k'' ne w e) h = thread_unblock-Inv t k k'' ne w e h

pub Reachable-Inv : {k : Kernel} → Reachable k → Inv k
Reachable-Inv (boot k r s now range) = record {
  waiting = record {
    sorted = rw r tt;
    queue = rw r (tt, tt);
    sleepers = rw s (tt, tt);
    range = range;
  };
  now = now;
}
Reachable-Inv (step r st) = Step-Inv _ _ st (Reachable-Inv r)

-- In every state that the operations can bring about, the next timer interrupt fails no assertion:
-- it leaves asleep the threads whose time is after the new tick, in their order, puts all others
-- of the sleep list in the ready list, and switches to no other thread by itself.
pub timer_interrupt_wakes :
    (k : Kernel)
    → Reachable k
    → (k' : Kernel) × (timer_interrupt k ≡ some k')
      × (k'.current ≡ k.current)
      × (k'.sleep_list ≡ asleep k.threads (k.ticks +ℤ pos 1) k.sleep_list)
      × All (λ x. (k.threads x).wakeup ≤ℤ (k.ticks +ℤ pos 1) → In x k'.ready_list) k.sleep_list
timer_interrupt_wakes k r = elim (timer_interrupt-Ticks k (Reachable-Inv r)) [
  | ticks_on k' run inv same kept due ↦ (k', run, same, kept, due)
]
