-- ===== src/Stock/Buffer.antt =====
-- The buffer of connections of 2024_1st/CSE4100/Project_03/task_2/stockserver.c, `sbuf_t` with
-- `sbuf_init`, `sbuf_insert` and `sbuf_remove`, used by any number of threads at once. A thread is
-- between the calls on the semaphores; what it does under `mutex` is one step, since no other
-- thread is between the `P` and the `V` of `mutex` then.
pub mod Fifo
use package.sogang_university.Shared.{
  ℕ, ◌+◌, ◌-◌, ◌%◌, ◌^◌, ◌<◌, List, [], ◌∷◌, ◌++◌, get_or, set, replicate,
}

-- `sbuf_t` but for `mutex`; how many threads stand after the `P` of `sbuf_insert` (`inserting`),
-- after its write (`posting`), after the `P` of `sbuf_remove` (`taking`) and after its read
-- (`releasing`); and what was put in and taken out so far.
pub record Sbuf : Type 0 where
  pub buf : List ℕ
  pub n : ℕ
  pub front : ℕ
  pub rear : ℕ
  pub slots : ℕ
  pub items : ℕ
  pub inserting : ℕ
  pub posting : ℕ
  pub taking : ℕ
  pub releasing : ℕ
  pub sent : List ℕ
  pub received : List ℕ

unfoldable pub sbuf_init : ℕ → Sbuf
sbuf_init n = record {
  buf = replicate n 0;
  n = n;
  front = 0;
  rear = 0;
  slots = n;
  items = 0;
  inserting = 0;
  posting = 0;
  taking = 0;
  releasing = 0;
  sent = [];
  received = [];
}

-- sp->buf[(++sp->rear) % (sp->n)] = item
unfoldable pub put_item : ℕ → Sbuf → Sbuf
put_item item s = record s {
  buf = set s.buf ((s.rear + 1) % s.n) item;
  rear = s.rear + 1;
  inserting = s.inserting - 1;
  posting = s.posting + 1;
  sent = s.sent ++ (item ∷ []);
}

-- item = sp->buf[(++sp->front) % (sp->n)]
unfoldable pub take_item : Sbuf → Sbuf
take_item s = record s {
  front = s.front + 1;
  taking = s.taking - 1;
  releasing = s.releasing + 1;
  received = s.received ++ (get_or s.buf ((s.front + 1) % s.n) 0 ∷ []);
}

-- One step of one thread. `rear` and `front` are C's `int`s: the relation has no step that would
-- take them past its range.
pub data Step (s : Sbuf) : Sbuf → Type 0 where
  wait_slot : 0 < s.slots → Step s (record s { slots = s.slots - 1; inserting = s.inserting + 1 })
  put : (item : ℕ) → 0 < s.inserting → s.rear + 1 < 2 ^ 31 → Step s (put_item item s)
  post_item : 0 < s.posting → Step s (record s { posting = s.posting - 1; items = s.items + 1 })
  wait_item : 0 < s.items → Step s (record s { items = s.items - 1; taking = s.taking + 1 })
  take : 0 < s.taking → s.front + 1 < 2 ^ 31 → Step s (take_item s)
  post_slot :
      0 < s.releasing → Step s (record s { releasing = s.releasing - 1; slots = s.slots + 1 })

-- The states that the threads can bring about, in any order of their steps.
pub data Reachable (n : ℕ) : Sbuf → Type 0 where
  start : Reachable n (sbuf_init n)
  next : {s t : Sbuf} → Reachable n s → Step s t → Reachable n t
