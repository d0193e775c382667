-- ===== src/Stock/Locks.antt =====
-- The readers and writers of `stock_server`, 2024_1st/CSE4100/Project_03/task_2/stockserver.c: how
-- the threads take `mutex` and `w` for `show` (readers) and for `buy` and `sell` (writers). A step
-- is one statement of one thread; the state counts the threads that stand behind each.
pub mod Exclusion
use package.sogang_university.Shared.{ℕ, ◌+◌, ◌-◌, ◌<◌, ◌≡◌, ◌≢◌}

pub record Locks : Type 0 where
  pub mutex : ℕ
  pub w : ℕ
  pub readcnt : ℕ
  -- A reader after its first P(&mutex), after readcnt++ where it has to wait for `w`, and before
  -- the V(&mutex) that lets it read.
  pub arriving : ℕ
  pub waiting : ℕ
  pub admitted : ℕ
  -- In show_tree.
  pub reading : ℕ
  -- A reader after its second P(&mutex), after readcnt-- where it has to do V(&w), and before its
  -- last V(&mutex).
  pub leaving : ℕ
  pub last : ℕ
  pub released : ℕ
  -- Between P(&w) and V(&w) of `buy` or `sell`.
  pub writing : ℕ

-- init_stock_server
unfoldable pub init_stock_server : Locks
init_stock_server = record {
  mutex = 1;
  w = 1;
  readcnt = 0;
  arriving = 0;
  waiting = 0;
  admitted = 0;
  reading = 0;
  leaving = 0;
  last = 0;
  released = 0;
  writing = 0;
}

pub data Step (s : Locks) : Locks → Type 0 where
  ask_read : 0 < s.mutex → Step s (record s { mutex = s.mutex - 1; arriving = s.arriving + 1 })
  count_first :
      0 < s.arriving
      → s.readcnt + 1 ≡ 1
      → Step s
          (record s { readcnt = s.readcnt + 1; arriving = s.arriving - 1; waiting = s.waiting + 1 })
  count_more :
      0 < s.arriving
      → s.readcnt + 1 ≢ 1
      → Step s (record s {
        readcnt = s.readcnt + 1;
        arriving = s.arriving - 1;
        admitted = s.admitted + 1;
      })
  take_w :
      0 < s.waiting
      → 0 < s.w
      → Step s (record s { w = s.w - 1; waiting = s.waiting - 1; admitted = s.admitted + 1 })
  read :
      0 < s.admitted
      → Step s
          (record s { mutex = s.mutex + 1; admitted = s.admitted - 1; reading = s.reading + 1 })
  ask_leave :
      0 < s.reading
      → 0 < s.mutex
      → Step s (record s { mutex = s.mutex - 1; reading = s.reading - 1; leaving = s.leaving + 1 })
  uncount_last :
      0 < s.leaving
      → s.readcnt - 1 ≡ 0
      → Step s (record s { readcnt = s.readcnt - 1; leaving = s.leaving - 1; last = s.last + 1 })
  uncount_more :
      0 < s.leaving
      → s.readcnt - 1 ≢ 0
      → Step s
          (record s { readcnt = s.readcnt - 1; leaving = s.leaving - 1; released = s.released + 1 })
  give_w :
      0 < s.last → Step s (record s { w = s.w + 1; last = s.last - 1; released = s.released + 1 })
  left : 0 < s.released → Step s (record s { mutex = s.mutex + 1; released = s.released - 1 })
  write : 0 < s.w → Step s (record s { w = s.w - 1; writing = s.writing + 1 })
  wrote : 0 < s.writing → Step s (record s { w = s.w + 1; writing = s.writing - 1 })

pub data Reachable : Locks → Type 0 where
  start : Reachable init_stock_server
  next : {s t : Locks} → Reachable s → Step s t → Reachable t
