-- ===== src/Kernel/Tests.antt =====
-- Runs of the scheduler on three threads, and the theorems at concrete inputs.
use sogang_university.Shared.{
  ℕ, ◌≡◌, ◌≢◌, refl, arith, false, ◌==◌, if◌then◌else◌, some, [], ◌∷◌, All,
}
use sogang_university.Shared.Int.{pos, ◌≤ℤ◌, ◌+ℤ◌}
use sogang_university.Kernel.{
  running, blocked, Threads, Kernel, thread_unblock, thread_yield, timer_interrupt, timer_sleep,
}
use sogang_university.Kernel.Queue.{IsSorted, Without, IsDistinct}
use sogang_university.Kernel.Inv.{InRange}
use sogang_university.Kernel.Aging.{rounds, aging_rises}
use sogang_university.Kernel.Wake.{asleep, In, unblocked}
use sogang_university.Kernel.Steps.{Reachable, boot, step, unblock, sleep, timer_interrupt_wakes}
use sogang_university.Kernel.Choice.{thread_yield_highest}
use sogang_university.Kernel.Semaphore.{
  Semaphore, sema_init, sema_down, list_remove, raised, sema_up,
}
use sogang_university.Kernel.Lock.{
  lock_init, Stage, Sharing, at_stage, Reach, start, next, calls, takes,
}
use sogang_university.Kernel.Lock.Moves.{Owns}
use sogang_university.Kernel.Lock.Holder.{lock_exclusion}
use sogang_university.Kernel.Semaphore.Wakeup.{sema_up-highest}

-- Thread 0 runs, 1 is the idle thread, 2 and those after it are blocked.
abbrev three : Threads
three x =
    if x == 0
    then record { status = running; priority = pos 31; wakeup = pos 0 }
    else if x == 1
    then record { status = blocked; priority = pos 0; wakeup = pos 0 }
    else record { status = blocked; priority = pos 40; wakeup = pos 0 }

abbrev booted : Kernel
booted = record {
  threads = three;
  ready_list = [];
  sleep_list = [];
  current = 0;
  idle_thread = 1;
  ticks = pos 7;
  thread_ticks = 0;
  yield_on_return = false;
}

three-InRange : (x : ℕ) → InRange (three x).priority
three-InRange x = ground arith

booted-Reachable : Reachable booted
booted-Reachable = boot booted refl refl refl three-InRange

-- Thread 2 is ready.
abbrev two_ready : Kernel
two_ready = unblocked 2 booted

two_ready-Reachable : Reachable two_ready
unfolding thread_unblock
two_ready-Reachable = step booted-Reachable (unblock 2 two_ready (omega arith) tt refl)

-- Thread 0 sleeps for one tick, and 2 runs.
abbrev one_asleep : Kernel
one_asleep = timer_sleep (pos 1) two_ready

one_asleep-Reachable : Reachable one_asleep
one_asleep-Reachable = step two_ready-Reachable (sleep (pos 1) (omega arith))

timer_interrupt_wakes_example :
    (k' : Kernel) × (timer_interrupt one_asleep ≡ some k')
    × (k'.current ≡ one_asleep.current)
    × (k'.sleep_list ≡ asleep one_asleep.threads (one_asleep.ticks +ℤ pos 1) one_asleep.sleep_list)
    × All
        (λ x. (one_asleep.threads x).wakeup ≤ℤ (one_asleep.ticks +ℤ pos 1) → In x k'.ready_list)
        one_asleep.sleep_list
timer_interrupt_wakes_example = timer_interrupt_wakes one_asleep one_asleep-Reachable

thread_yield_highest_example :
    IsSorted two_ready.threads two_ready.ready_list
    × IsDistinct two_ready.ready_list
    × Without two_ready.current two_ready.ready_list
    × Without two_ready.current two_ready.sleep_list
    × All
        (λ y.
          ((thread_yield two_ready).threads y).priority
          ≤ℤ ((thread_yield two_ready).threads (thread_yield two_ready).current).priority)
        (thread_yield two_ready).ready_list
thread_yield_highest_example = thread_yield_highest two_ready two_ready-Reachable

aging_rises_example :
    All (λ x. (rounds 63 (2 ∷ 0 ∷ []) three x).priority ≡ pos 63) (2 ∷ 0 ∷ [])
    × ((x : ℕ) → Without x (2 ∷ 0 ∷ []) → rounds 63 (2 ∷ 0 ∷ []) three x ≡ three x)
aging_rises_example = aging_rises (2 ∷ 0 ∷ []) three (omega arith) three-InRange

abbrev waited : Semaphore
waited = record { value = 0; waiters = 1 ∷ 2 ∷ [] }

sema_up-highest_example :
    (x : ℕ) × (k' : Kernel) × (sema_up booted waited
      ≡ some (k', raised waited (list_remove x (1 ∷ 2 ∷ []))))
    × In x (1 ∷ 2 ∷ [])
    × All (λ y. (three y).priority ≤ℤ (three x).priority) (1 ∷ 2 ∷ [])
    × In x k'.ready_list
    × (k'.current ≡ 0)
sema_up-highest_example = sema_up-highest booted waited 1 (2 ∷ []) refl (refl, (refl, tt))

-- Thread 2 runs and has taken a lock.
abbrev second : Kernel
second = record booted { current = 2 }

abbrev unlocked : Sharing
unlocked = record { kernel = second; lock = lock_init; stage = λ t. Stage.outside }

abbrev asking : Sharing
asking = record unlocked { stage = at_stage second.current Stage.acquiring unlocked.stage }

abbrev taken : Sharing
taken = record asking {
  lock = record { holder = 0; semaphore = record { value = 0; waiters = [] } };
  stage = at_stage second.current Stage.acquired asking.stage;
}

taken-Reach : Reach taken
unfolding lock_init sema_init sema_down
taken-Reach =
    next asking taken (next unlocked asking (start second) (calls refl refl))
      (takes second (record { value = 0; waiters = [] }) refl refl)

lock_exclusion_example :
    ((t u : ℕ) → Owns (taken.stage t) → Owns (taken.stage u) → t ≡ u)
    × ((t : ℕ) → taken.stage t ≡ Stage.inside → taken.lock.holder ≡ t)
    × ((t : ℕ) → t ≢ 0 → taken.stage t ≡ Stage.outside → taken.lock.holder ≢ t)
lock_exclusion_example = lock_exclusion taken taken-Reach
