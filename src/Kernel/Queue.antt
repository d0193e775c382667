-- ===== src/Kernel/Queue.antt =====
-- Lists of threads in the order of their priorities, without one twice.
use sogang_university.Shared.{
  ℕ, ◌≡◌, ◌≢◌, sym, ap, ◌∙◌, arith, inl, inr, Bool-cases, ◌==◌, List, [], ◌∷◌, ◌++◌, All,
}
use sogang_university.Shared.Int.{◌≤ℤ◌}
use sogang_university.Kernel.{
  Status, Thread, Threads, write_thread, set_status, get_priority, list_insert_ordered,
}

-- Each thread before those of its priority or less.
abbrev pub IsSorted : Threads → List ℕ → Type 0
IsSorted f [] = Unit
IsSorted f (x ∷ l) = All (λ y. (f y).priority ≤ℤ (f x).priority) l × IsSorted f l

abbrev pub Without : ℕ → List ℕ → Type 0
Without x l = All (λ y. x ≢ y) l

abbrev pub IsDistinct : List ℕ → Type 0
IsDistinct [] = Unit
IsDistinct (x ∷ l) = Without x l × IsDistinct l

-- Different threads that all have the status, the idle thread not among them.
abbrev pub IsQueue : ℕ → Status → Threads → List ℕ → Type 0
IsQueue idle s f l = IsDistinct l × All (λ x. ((f x).status ≡ s) × (idle ≢ x)) l

pub All-insert :
    (P : ℕ → Type 0) (f : Threads) (x : ℕ) (l : List ℕ)
    → P x
    → All P l
    → All P (list_insert_ordered f x l)
unfolding list_insert_ordered
All-insert P f x [] h a = (h, tt)
All-insert P f x (e ∷ l) h a = elim (Bool-cases (get_priority f x e)) [
  | inl c ↦ rw c (h, a)
  | inr c ↦ rw c (a.0, All-insert P f x l h a.1)
]

pub All-map : (P Q : ℕ → Type 0) → ((x : ℕ) → P x → Q x) → (l : List ℕ) → All P l → All Q l
All-map P Q f [] a = tt
All-map P Q f (x ∷ l) a = (f x a.0, All-map P Q f l a.1)

pub insert-IsSorted :
    (f : Threads) (x : ℕ) (l : List ℕ) → IsSorted f l → IsSorted f (list_insert_ordered f x l)
unfolding list_insert_ordered
insert-IsSorted f x [] h = (tt, tt)
insert-IsSorted f x (e ∷ l) h = elim (Bool-cases (get_priority f x e)) [
  | inl c ↦
      let top : (f e).priority ≤ℤ (f x).priority = ground arith in
      rw c (
        (
          top,
          All-map (λ y. (f y).priority ≤ℤ (f e).priority) (λ y. (f y).priority ≤ℤ (f x).priority)
              (λ y le. omega (arith, le, top)) l h.0,
        ),
        h,
      )
  | inr c ↦
      let below : (f x).priority ≤ℤ (f e).priority = ground arith in
      rw c (
        All-insert (λ y. (f y).priority ≤ℤ (f e).priority) f x l below h.0,
        insert-IsSorted f x l h.1,
      )
]

pub insert-IsDistinct :
    (f : Threads) (x : ℕ) (l : List ℕ)
    → Without x l
    → IsDistinct l
    → IsDistinct (list_insert_ordered f x l)
unfolding list_insert_ordered
insert-IsDistinct f x [] w h = (tt, tt)
insert-IsDistinct f x (e ∷ l) w h = elim (Bool-cases (get_priority f x e)) [
  | inl c ↦ rw c (w, h)
  | inr c ↦
      rw c (All-insert (λ y. e ≢ y) f x l (λ q. w.0 (sym q)) h.0, insert-IsDistinct f x l w.1 h.1)
]

pub IsDistinct-snoc : (x : ℕ) (l : List ℕ) → Without x l → IsDistinct l → IsDistinct (l ++ (x ∷ []))
IsDistinct-snoc x [] w h = (tt, tt)
IsDistinct-snoc x (e ∷ l) w h = (later l h.0, IsDistinct-snoc x l w.1 h.1)
  where
    later : (k : List ℕ) → Without e k → Without e (k ++ (x ∷ []))
    later [] a = (λ q. w.0 (sym q), tt)
    later (y ∷ k) a = (a.0, later k a.1)

pub All-snoc : (P : ℕ → Type 0) (x : ℕ) (l : List ℕ) → P x → All P l → All P (l ++ (x ∷ []))
All-snoc P x [] h a = (h, tt)
All-snoc P x (y ∷ l) h a = (a.0, All-snoc P x l h a.1)

-- A write to a thread that is not in the list.
module _ (f : Threads) (x : ℕ) (v : Thread) where
  pub write_thread_other : (y : ℕ) → x ≢ y → write_thread f x v y ≡ f y
  write_thread_other y ne = ground arith

  pub All-write :
      (P : Thread → ℕ → Type 0) (l : List ℕ)
      → Without x l
      → All (λ y. P (f y) y) l
      → All (λ y. P (write_thread f x v y) y) l
  All-write P [] w a = tt
  All-write P (y ∷ l) w a = (rw (write_thread_other y w.0) a.0, All-write P l w.1 a.1)

  pub IsSorted-write : (l : List ℕ) → Without x l → IsSorted f l → IsSorted (write_thread f x v) l
  IsSorted-write [] w h = tt
  IsSorted-write (y ∷ l) w h = (
    rw (write_thread_other y w.0) (All-write (λ t z. t.priority ≤ℤ (f y).priority) l w.1 h.0),
    IsSorted-write l w.1 h.1,
  )

  pub IsQueue-write :
      (idle : ℕ) (s : Status) (l : List ℕ)
      → Without x l
      → IsQueue idle s f l
      → IsQueue idle s (write_thread f x v) l
  IsQueue-write idle s l w q = (q.0, All-write (λ t y. (t.status ≡ s) × (idle ≢ y)) l w q.1)

-- The order depends on the priorities only.
pub IsSorted-ext :
    (f g : Threads)
    → ((x : ℕ) → (f x).priority ≡ (g x).priority)
    → (l : List ℕ) → IsSorted f l
    → IsSorted g l
IsSorted-ext f g e [] h = tt
IsSorted-ext f g e (x ∷ l) h = (
  All-map (λ y. (f y).priority ≤ℤ (f x).priority) (λ y. (g y).priority ≤ℤ (g x).priority)
      (λ y le. rw (← e y, ← e x) le) l h.0,
  IsSorted-ext f g e l h.1,
)

pub set_status_priority :
    (f : Threads) (x : ℕ) (s : Status) (y : ℕ) → (f y).priority ≡ (set_status f x s y).priority
set_status_priority f x s y = elim (Bool-cases (x == y)) [
  | inl e ↦ let same : x ≡ y = ground arith in rw (e, same)
  | inr e ↦ rw e
]

-- A thread with another status is not in the queue.
pub IsQueue-Without :
    (idle : ℕ) (s : Status) (f : Threads) (x : ℕ) (l : List ℕ)
    → (f x).status ≢ s
    → IsQueue idle s f l
    → Without x l
IsQueue-Without idle s f x l h q =
    All-map (λ y. ((f y).status ≡ s) × (idle ≢ y)) (λ y. x ≢ y)
      (λ y a e. h (ap (λ z. (f z).status) e ∙ a.0)) l q.1

pub IsQueue-idle :
    (idle : ℕ) (s : Status) (f : Threads) (l : List ℕ) → IsQueue idle s f l → Without idle l
IsQueue-idle idle s f l q =
    All-map (λ y. ((f y).status ≡ s) × (idle ≢ y)) (λ y. idle ≢ y) (λ y a. a.1) l q.1
