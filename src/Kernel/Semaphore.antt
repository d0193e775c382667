-- ===== src/Kernel/Semaphore.antt =====
-- The semaphores of 2024_2nd/CSE4070/Project_04/threads/synch.c. Interrupts are off in all of them,
-- so each is one step.
pub mod Wakeup
use package.sogang_university.Shared.{
  ℕ, ◌+◌, ◌-◌, ◌%◌, ◌^◌, Bool, true, false, ◌==◌, if◌then◌else◌, Option, none, some, List, [], ◌∷◌,
}
use package.sogang_university.Shared.Int.{ltb_ℤ}
use package.sogang_university.Kernel.{
  Threads, Kernel, list_insert_ordered, thread_unblock, thread_block,
}

pub record Semaphore : Type 0 where
  pub value : ℕ
  pub waiters : List ℕ

unfoldable pub sema_init : ℕ → Semaphore
sema_init value = record { value = value; waiters = [] }

-- One round of the loop of `sema_down`: false if the thread was blocked, and looks at the value
-- again when it runs next.
unfoldable pub sema_down : Kernel → Semaphore → Bool × Kernel × Semaphore
unfolding thread_block
sema_down k s =
    let queued = list_insert_ordered k.threads k.current s.waiters in
    if s.value == 0
    then (false, thread_block k, record s { waiters = queued })
    else (true, k, record s { value = s.value - 1 })

unfoldable pub sema_try_down : Semaphore → Bool × Semaphore
sema_try_down s = if s.value == 0 then (false, s) else (true, record s { value = s.value - 1 })

-- The loop of `sema_up`: the thread of the highest priority, the first if there are several.
pub highest : Threads → ℕ → List ℕ → ℕ
highest f best [] = best
highest f best (t ∷ l) = highest f (if ltb_ℤ (f best).priority (f t).priority then t else best) l

-- list_remove
pub list_remove : ℕ → List ℕ → List ℕ
list_remove x [] = []
list_remove x (t ∷ l) = let rest = list_remove x l in if x == t then l else t ∷ rest

-- value++ of an `unsigned`
abbrev pub raised : Semaphore → List ℕ → Semaphore
raised s waiters = record s { value = (s.value + 1) % 2 ^ 32; waiters = waiters }

unfoldable pub sema_up : Kernel → Semaphore → Option (Kernel × Semaphore)
unfolding thread_unblock highest list_remove
sema_up k s = elim s.waiters [
  | [] ↦ some (k, raised s [])
  | t ∷ l ↦
      let chosen = highest k.threads t (t ∷ l) in
      elim (thread_unblock chosen k) [
        | none ↦ none
        | some k' ↦ some (k', raised s (list_remove chosen (t ∷ l)))
      ]
]
