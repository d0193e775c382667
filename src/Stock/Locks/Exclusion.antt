-- ===== src/Stock/Locks/Exclusion.antt =====
-- Readers and writers exclude one another, and the locks never leave them all waiting.
use sogang_university.Shared.{ℕ, ◌+◌, ◌*◌, ◌≤◌, ◌<◌, ◌≡◌, ◌⊎◌, inl, refl, arith, dec_lt}
use sogang_university.Stock.Locks.{
  Locks, init_stock_server, Step, ask_read, count_first, count_more, take_w, read, ask_leave,
  uncount_last, uncount_more, give_w, left, write, wrote, Reachable, start, next,
}

-- What holds in every state: one thread at most is past a P(&mutex), `readcnt` counts the readers,
-- and `w` is free, a writer's, or the readers', who have it while one is admitted.
data Inv (s : Locks) : Type 0 where
  inv :
      s.mutex + s.arriving + s.waiting + s.admitted + s.leaving + s.last + s.released ≡ 1
      → s.readcnt ≡ s.waiting + s.admitted + s.reading + s.leaving
      → ((s.w + s.writing ≡ 1) × (s.readcnt ≡ s.waiting) × (s.last ≡ 0))
        ⊎ ((s.w + s.writing ≡ 0)
            × (s.waiting ≡ 0)
            × (0 < s.readcnt + s.last)
            × (s.readcnt ≡ 0 ⊎ s.last ≡ 0))
      → Inv s

Step-Inv : {s t : Locks} → Step s t → Inv s → Inv t
Step-Inv (ask_read a) (inv m r h) = inv (omega arith) (omega arith) (ground arith)
Step-Inv (count_first a b) (inv m r h) = inv (omega arith) (omega arith) (ground arith)
Step-Inv (count_more a b) (inv m r h) = inv (omega arith) (omega arith) (ground arith)
Step-Inv (take_w a b) (inv m r h) = inv (omega arith) (omega arith) (ground arith)
Step-Inv (read a) (inv m r h) = inv (omega arith) (omega arith) (ground arith)
Step-Inv (ask_leave a b) (inv m r h) = inv (omega arith) (omega arith) (ground arith)
Step-Inv (uncount_last a b) (inv m r h) = inv (omega arith) (omega arith) (ground arith)
Step-Inv (uncount_more a b) (inv m r h) = inv (omega arith) (omega arith) (ground arith)
Step-Inv (give_w a) (inv m r h) = inv (omega arith) (omega arith) (ground arith)
Step-Inv (left a) (inv m r h) = inv (omega arith) (omega arith) (ground arith)
Step-Inv (write a) (inv m r h) = inv (omega arith) (omega arith) (ground arith)
Step-Inv (wrote a) (inv m r h) = inv (omega arith) (omega arith) (ground arith)

Reachable-Inv : {s : Locks} → Reachable s → Inv s
unfolding init_stock_server
Reachable-Inv start = inv refl refl (inl (refl, refl, refl))
Reachable-Inv (next r st) = Step-Inv st (Reachable-Inv r)

-- In every state that the threads can bring about, at most one thread writes, and none while one
-- reads.
pub exclusion : (s : Locks) → Reachable s → (s.writing ≤ 1) × (0 < s.reading → s.writing ≡ 0)
exclusion s r = elim (Reachable-Inv r) [ inv m c h ↦ (omega arith, λ reads. omega arith) ]

-- The statements that the threads inside have left.
abbrev pub left_to_do : Locks → ℕ
left_to_do s =
    7 * s.arriving
    + 6 * s.waiting
    + 5 * s.admitted
    + 4 * s.reading
    + 3 * s.leaving
    + 2 * s.last
    + s.released
    + s.writing

-- In every state that the threads can bring about in which a thread is inside, one of those can
-- go on, towards its end: they are never all waiting for one another.
pub no_deadlock :
    (s : Locks)
    → Reachable s
    → 0 < left_to_do s
    → (t : Locks) × Step s t × (left_to_do t < left_to_do s)
no_deadlock s r busy = elim (Reachable-Inv r) [
  | inv m c h ↦ elim (dec_lt 0 s.arriving) [
    | yes a ↦ elim (dec_lt 0 s.readcnt) [
      | yes p ↦ (_, count_more a (omega arith), omega arith)
      | no p ↦ (_, count_first a (omega arith), omega arith)
    ]
    | no a ↦ elim (dec_lt 0 s.writing) [
      | yes p ↦ (_, wrote p, omega arith)
      | no nw ↦ elim (dec_lt 0 s.waiting) [
        | yes p ↦ (_, take_w p (omega arith), omega arith)
        | no b ↦ elim (dec_lt 0 s.admitted) [
          | yes p ↦ (_, read p, omega arith)
          | no d ↦ elim (dec_lt 0 s.leaving) [
            | yes p ↦ elim (dec_lt 1 s.readcnt) [
              | yes q ↦ (_, uncount_more p (omega arith), omega arith)
              | no q ↦ (_, uncount_last p (omega arith), omega arith)
            ]
            | no e ↦ elim (dec_lt 0 s.last) [
              | yes p ↦ (_, give_w p, omega arith)
              | no f ↦ elim (dec_lt 0 s.released) [
                | yes p ↦ (_, left p, omega arith)
                | no g ↦ (_, ask_leave (omega arith) (omega arith), omega arith)
              ]
            ]
          ]
        ]
      ]
    ]
  ]
]
