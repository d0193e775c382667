-- ===== src/Kernel.antt =====
-- The scheduler of 2024_2nd/CSE4070/Project_04, threads/thread.c with devices/timer.c, where
-- `thread_mlfqs` is false, its default. A `struct thread *` is a number, and the threads are a
-- function of it; an ASSERT that fails is `none`. `ticks` and `wakeup` are without a bound, `int`s
-- wrap at 32 bits.
pub mod Queue
pub mod Inv
pub mod Aging
pub mod Wake
pub mod Steps
pub mod Choice
pub mod Semaphore
pub mod Lock
mod Tests
use package.sogang_university.Shared.{
  ℕ, ◌+◌, ◌%◌, ◌^◌, Bool, true, false, ◌==◌, leb, if◌then◌else◌, Option, none, some, List, [], ◌∷◌,
  ◌++◌,
}
use package.sogang_university.Shared.Int.{ℤ, pos, ltb_ℤ, ◌+ℤ◌, wrap}

pub data Status : Type 0 where
  running ready blocked dying : Status

pub record Thread : Type 0 where
  pub status : Status
  pub priority : ℤ
  pub wakeup : ℤ

abbrev pub Threads : Type 0
Threads = ℕ → Thread

-- A write to the thread at a pointer.
abbrev pub write_thread : Threads → ℕ → Thread → Threads
write_thread f x v y = if x == y then v else f y

abbrev pub set_status : Threads → ℕ → Status → Threads
set_status f x s = write_thread f x (record (f x) { status = s })

-- The globals of thread.c, timer.c and interrupt.c, and the thread that runs.
pub record Kernel : Type 0 where
  pub threads : Threads
  pub ready_list : List ℕ
  pub sleep_list : List ℕ
  pub current : ℕ
  pub idle_thread : ℕ
  pub ticks : ℤ
  pub thread_ticks : ℕ
  pub yield_on_return : Bool

abbrev pub get_priority : Threads → ℕ → ℕ → Bool
get_priority f x y = ltb_ℤ (f y).priority (f x).priority

-- `list_insert_ordered` of lib/kernel/list.c with `get_priority`.
pub list_insert_ordered : Threads → ℕ → List ℕ → List ℕ
list_insert_ordered f x [] = x ∷ []
list_insert_ordered f x (e ∷ l) =
    let rest = list_insert_ordered f x l in if get_priority f x e then x ∷ e ∷ l else e ∷ rest

unfoldable pub thread_unblock : ℕ → Kernel → Option Kernel
thread_unblock t k = elim (k.threads t).status [
  | blocked ↦ some (record k {
    ready_list = list_insert_ordered k.threads t k.ready_list;
    threads = set_status k.threads t ready;
  })
  | _ ↦ none
]

-- The thread, and the ready list without it.
abbrev pub next_thread_to_run : ℕ → List ℕ → ℕ × List ℕ
next_thread_to_run idle [] = (idle, [])
next_thread_to_run idle (t ∷ l) = (t, l)

-- `schedule` with `thread_schedule_tail`.
pub schedule : Kernel → Kernel
schedule k =
    let (next, rest) = next_thread_to_run k.idle_thread k.ready_list in
    record k {
      ready_list = rest;
      threads = set_status k.threads next running;
      current = next;
      thread_ticks = 0;
    }

pub thread_block : Kernel → Kernel
unfolding schedule
thread_block k = schedule (record k { threads = set_status k.threads k.current blocked })

pub thread_yield : Kernel → Kernel
unfolding schedule
thread_yield k =
    let queued = list_insert_ordered k.threads k.current k.ready_list in
    schedule (record k {
      ready_list = if k.current == k.idle_thread then k.ready_list else queued;
      threads = set_status k.threads k.current ready;
    })

pub thread_exit : Kernel → Kernel
unfolding schedule
thread_exit k = schedule (record k { threads = set_status k.threads k.current dying })

pub thread_set_priority : ℤ → Kernel → Kernel
unfolding thread_yield
thread_set_priority p k =
    let t = k.threads k.current in
    let k' = record k { threads = write_thread k.threads k.current (record t { priority = p }) } in
    if ltb_ℤ p t.priority then thread_yield k' else k'

abbrev pub pri_min : ℤ
pri_min = pos 0

abbrev pub pri_max : ℤ
pri_max = pos 63

-- One thread's part of `update_aging`: one up, then the two tests.
pub aged : ℤ → ℤ
aged p =
    let up = wrap (p +ℤ pos 1) in
    let low = if ltb_ℤ up pri_min then pri_min else up in if ltb_ℤ pri_max low then pri_max else low

-- The loop of `update_aging` over the ready list.
pub update_aging : List ℕ → Threads → Threads
unfolding aged
update_aging [] f = f
update_aging (t ∷ l) f =
    update_aging l (write_thread f t (record (f t) { priority = aged (f t).priority }))

abbrev pub time_slice : ℕ
time_slice = 4

pub thread_tick : Kernel → Kernel
unfolding update_aging
thread_tick k =
    let n = (k.thread_ticks + 1) % 2 ^ 32 in
    record k {
      thread_ticks = n;
      yield_on_return = if leb time_slice n then true else k.yield_on_return;
      threads = update_aging k.ready_list k.threads;
    }

-- The loop of `timer_interrupt` over what is left of the sleep list: what stays in it, and the
-- kernel with the others unblocked.
pub wake_loop : List ℕ → Kernel → Option (List ℕ × Kernel)
unfolding thread_unblock
wake_loop [] k = some ([], k)
wake_loop (t ∷ l) k =
    let kept : Option (List ℕ × Kernel) = elim (wake_loop l k) [
      | none ↦ none
      | some (l', k') ↦ some (t ∷ l', k')
    ] in
    let woken : Option (List ℕ × Kernel) = elim (thread_unblock t k) [
      | none ↦ none
      | some k' ↦ wake_loop l k'
    ] in
    if ltb_ℤ k.ticks (k.threads t).wakeup then kept else woken

pub timer_interrupt : Kernel → Option Kernel
unfolding wake_loop thread_tick
timer_interrupt k =
    let k' = record k { ticks = k.ticks +ℤ pos 1 } in
    elim (wake_loop k'.sleep_list k') [
      | none ↦ none
      | some (kept, woken) ↦ some (thread_tick (record woken { sleep_list = kept }))
    ]

-- `intr_handler` of threads/interrupt.c for the timer's interrupt.
pub intr_handler : Kernel → Option Kernel
unfolding timer_interrupt thread_yield
intr_handler k = elim (timer_interrupt (record k { yield_on_return = false })) [
  | none ↦ none
  | some k' ↦ some (if k'.yield_on_return then thread_yield k' else k')
]

pub timer_sleep : ℤ → Kernel → Kernel
unfolding thread_block
timer_sleep n k =
    let t = k.threads k.current in
    thread_block (record k {
      threads = write_thread k.threads k.current (record t { wakeup = k.ticks +ℤ n });
      sleep_list = k.sleep_list ++ (k.current ∷ []);
    })
