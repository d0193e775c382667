-- ===== src/Kernel/Lock.antt =====
-- The locks of 2024_2nd/CSE4070/Project_04/threads/synch.c. The operations of the semaphore in a lock
-- are one step each, since interrupts are off in them; another thread can run between any two steps.
pub mod Value
pub mod Moves
pub mod Holder
use package.sogang_university.Shared.{
  ℕ, ◌+◌, ◌%◌, ◌^◌, ◌≡◌, ◌≢◌, Bool, true, false, ◌==◌, if◌then◌else◌, Option, none, some, List,
}
use package.sogang_university.Kernel.{Kernel}
use package.sogang_university.Kernel.Semaphore.{
  Semaphore, sema_init, sema_down, sema_try_down, sema_up,
}

-- NULL is 0.
pub record Lock : Type 0 where
  pub holder : ℕ
  pub semaphore : Semaphore

unfoldable pub lock_init : Lock
unfolding sema_init
lock_init = record { holder = 0; semaphore = sema_init 1 }

abbrev pub lock_held_by_current_thread : Kernel → Lock → Bool
lock_held_by_current_thread k l = l.holder == k.current

-- Where a thread is in lock_acquire, in what it does with the lock, and in lock_release.
pub data Stage : Type 0 where
  outside acquiring acquired inside releasing : Stage

pub record Sharing : Type 0 where
  pub kernel : Kernel
  pub lock : Lock
  pub stage : ℕ → Stage

-- The stage of a thread that takes a step.
abbrev pub at_stage : ℕ → Stage → (ℕ → Stage) → ℕ → Stage
at_stage t stage old u = if u == t then stage else old u

-- The steps of the running thread.
pub data Step (s : Sharing) : Sharing → Type 0 where
  -- lock_acquire, whose ASSERT fails for the holder, and a round of the loop in its sema_down.
  calls :
      s.stage s.kernel.current ≡ outside
      → lock_held_by_current_thread s.kernel s.lock ≡ false
      → Step s (record s { stage = at_stage s.kernel.current acquiring s.stage })
  waits :
      (k : Kernel) (m : Semaphore)
      → s.stage s.kernel.current ≡ acquiring
      → sema_down s.kernel s.lock.semaphore ≡ (false, k, m)
      → Step s (record s { kernel = k; lock = record { holder = s.lock.holder; semaphore = m } })
  takes :
      (k : Kernel) (m : Semaphore)
      → s.stage s.kernel.current ≡ acquiring
      → sema_down s.kernel s.lock.semaphore ≡ (true, k, m)
      → Step s (record {
        kernel = k;
        lock = record { holder = s.lock.holder; semaphore = m };
        stage = at_stage s.kernel.current acquired s.stage;
      })
  -- lock_try_acquire, where it succeeds.
  tries :
      (m : Semaphore)
      → s.stage s.kernel.current ≡ outside
      → lock_held_by_current_thread s.kernel s.lock ≡ false
      → sema_try_down s.lock.semaphore ≡ (true, m)
      → Step s (record s {
        lock = record { holder = s.lock.holder; semaphore = m };
        stage = at_stage s.kernel.current acquired s.stage;
      })
  holds :
      s.stage s.kernel.current ≡ acquired
      → Step s (record s {
        lock = record { holder = s.kernel.current; semaphore = s.lock.semaphore };
        stage = at_stage s.kernel.current inside s.stage;
      })
  -- lock_release, whose ASSERT fails for another than the holder.
  drops :
      s.stage s.kernel.current ≡ inside
      → lock_held_by_current_thread s.kernel s.lock ≡ true
      → Step s (record s {
        lock = record { holder = 0; semaphore = s.lock.semaphore };
        stage = at_stage s.kernel.current releasing s.stage;
      })
  raises :
      (k : Kernel) (m : Semaphore)
      → s.stage s.kernel.current ≡ releasing
      → sema_up s.kernel s.lock.semaphore ≡ some (k, m)
      → Step s (record {
        kernel = k;
        lock = record { holder = s.lock.holder; semaphore = m };
        stage = at_stage s.kernel.current outside s.stage;
      })
  -- Anything else that happens in the kernel.
  other : (k : Kernel) → Step s (record s { kernel = k })

pub data Reach : Sharing → Type 0 where
  start : (k : Kernel) → Reach (record { kernel = k; lock = lock_init; stage = λ t. outside })
  next : (s r : Sharing) → Reach s → Step s r → Reach r
