-- ===== src/Stock/Buffer/Fifo.antt =====
-- The buffer hands the connections on in order, whatever the threads do.
use sogang_university.Shared.{
  ℕ, zero, suc, ◌+◌, ◌-◌, ◌%◌, ◌≤◌, ◌<◌, ◌≡◌, ◌≢◌, refl, sym, ◌∙◌, ap, arith, dec_lt,
}
use sogang_university.Shared.{
  List, [], ◌∷◌, ◌++◌, append_assoc, length, length-set, length-replicate, get_or, set,
}
use sogang_university.Shared.{get_or-set_self, get_or-set_ne}
use mathlib.Core.Path.{subst}
use native.Mathlib.Nat.{mod-lt, mod-eq_of_lt, mod-add-mod, mod-eq-sub-mod}
use sogang_university.Stock.Buffer.{
  Sbuf, sbuf_init, put_item, take_item, Step, wait_slot, put, post_item, wait_item, take, post_slot,
  Reachable, start, next,
}

-- The `k` items from position `h` on.
abbrev pub window : List ℕ → ℕ → ℕ → ℕ → List ℕ
window buf n h zero = []
window buf n h (suc k) = get_or buf (h % n) 0 ∷ window buf n (h + 1) k

-- Two positions less than `n` apart have different cells.
cells_apart : (n h d : ℕ) → 0 < n → 0 < d → d < n → h % n ≢ (h + d) % n
cells_apart n h d hn hd lt e =
    let r = h % n in
    let bound : r < n = mod-lt h hn in
    let whole : r ≡ (r + d) % n = e ∙ sym (mod-add-mod h n d) in
    elim (dec_lt (r + d) n) [
      | yes p ↦ omega (arith, whole, mod-eq_of_lt p)
      | no p ↦
          let wrapped : (r + d) % n ≡ (r + d - n) % n =
            mod-eq-sub-mod {n = r + d} {m = n} (omega arith) in
          let small : r + d - n < n = omega arith in
          omega (arith, whole, wrapped, mod-eq_of_lt small)
    ]

-- A write outside of the window leaves it.
window-set_later :
    (buf : List ℕ) (n h k d v : ℕ)
    → 0 < n
    → k ≤ d
    → d < n
    → window (set buf ((h + d) % n) v) n h k ≡ window buf n h k
window-set_later buf n h zero d v hn le lt = refl
window-set_later buf n h (suc k) zero v hn le lt = absurd (omega arith)
window-set_later buf n h (suc k) (suc d) v hn le lt =
    let apart : (h + suc d) % n ≢ h % n =
      λ e. cells_apart n h (suc d) hn (omega arith) lt (sym e) in
    let here = get_or-set_ne buf ((h + suc d) % n) (h % n) v 0 apart in
    let next_on : h + suc d ≡ h + 1 + d = omega arith in
    let rest = window-set_later buf n (h + 1) k d v hn (omega arith) (omega arith) in
    let at : ℕ → Type 0 = λ z. window (set buf (z % n) v) n (h + 1) k ≡ window buf n (h + 1) k in
    rw here (ap (λ l. get_or buf (h % n) 0 ∷ l) (subst at (sym next_on) rest))

-- A write in the cell behind the window makes it one item longer.
window-set :
    (buf : List ℕ) (n h k v : ℕ)
    → 0 < n
    → length buf ≡ n
    → k < n
    → window (set buf ((h + k) % n) v) n h (suc k) ≡ window buf n h k ++ (v ∷ [])
window-set buf n h zero v hn size lt =
    let same : h + 0 ≡ h = omega arith in
    rw (same, get_or-set_self buf (h % n) v 0 (omega (arith, mod-lt h hn)))
window-set buf n h (suc k) v hn size lt =
    let apart : (h + suc k) % n ≢ h % n =
      λ e. cells_apart n h (suc k) hn (omega arith) lt (sym e) in
    let here = get_or-set_ne buf ((h + suc k) % n) (h % n) v 0 apart in
    let next_on : h + suc k ≡ h + 1 + k = omega arith in
    let rest = window-set buf n (h + 1) k v hn size (omega arith) in
    rw here (
      ap (λ l. get_or buf (h % n) 0 ∷ l)
        (subst
          (λ z. window (set buf (z % n) v) n (h + 1) (suc k) ≡ window buf n (h + 1) k ++ (v ∷ []))
          (sym next_on) rest))

-- What holds in every state: the semaphores account for every cell of the buffer, and what was put
-- in is what was taken out followed by what the buffer holds, in order.
data Inv (n : ℕ) (s : Sbuf) : Type 0 where
  inv :
      (held : ℕ)
      → s.n ≡ n
      → length s.buf ≡ n
      → held ≡ s.items + s.posting + s.taking
      → s.slots + s.inserting + held + s.releasing ≡ n
      → s.rear ≡ s.front + held
      → s.sent ≡ s.received ++ window s.buf n (s.front + 1) held
      → Inv n s

sbuf_init-Inv : (n : ℕ) → Inv n (sbuf_init n)
unfolding sbuf_init
sbuf_init-Inv n = inv 0 refl (length-replicate n 0) refl (omega arith) refl refl

put_item-Inv : (n v : ℕ) (s : Sbuf) → 0 < s.inserting → Inv n s → Inv n (put_item v s)
unfolding put_item
put_item-Inv n v s h (inv held hn size count total rear sent) =
    let fits : held < n = omega arith in
    let place : s.rear + 1 ≡ s.front + 1 + held = omega arith in
    let cell : (s.rear + 1) % s.n ≡ (s.front + 1 + held) % n = rw (hn, place) refl in
    let later = window s.buf n (s.front + 1) held ++ (v ∷ []) in
    let filled =
      subst (λ i. window (set s.buf i v) n (s.front + 1) (suc held) ≡ later) (sym cell)
        (window-set s.buf n (s.front + 1) held v (omega arith) size fits) in
    inv (suc held) hn (length-set s.buf ((s.rear + 1) % s.n) v ∙ size) (omega arith) (omega arith)
      (omega arith)
      (ap (λ l. l ++ (v ∷ [])) sent
        ∙ append_assoc s.received (window s.buf n (s.front + 1) held) (v ∷ [])
        ∙ ap (λ l. s.received ++ l) (sym filled))

take_item-Inv : (n : ℕ) (s : Sbuf) → 0 < s.taking → Inv n s → Inv n (take_item s)
unfolding take_item
take_item-Inv n s h (inv zero hn size count total rear sent) = absurd (omega arith)
take_item-Inv n s h (inv (suc held) hn size count total rear sent) =
    inv held hn size (omega arith) (omega arith) (omega arith) (
      rw hn (
        sent
        ∙ sym (
            append_assoc s.received (get_or s.buf ((s.front + 1) % n) 0 ∷ [])
              (window s.buf n (s.front + 1 + 1) held))))

Step-Inv : (n : ℕ) {s t : Sbuf} → Step s t → Inv n s → Inv n t
Step-Inv n (wait_slot h) (inv held hn size count total rear sent) =
    inv held hn size (omega arith) (omega arith) rear sent
Step-Inv n (put item h r) i = put_item-Inv n item _ h i
Step-Inv n (post_item h) (inv held hn size count total rear sent) =
    inv held hn size (omega arith) (omega arith) rear sent
Step-Inv n (wait_item h) (inv held hn size count total rear sent) =
    inv held hn size (omega arith) (omega arith) rear sent
Step-Inv n (take h r) i = take_item-Inv n _ h i
Step-Inv n (post_slot h) (inv held hn size count total rear sent) =
    inv held hn size (omega arith) (omega arith) rear sent

Reachable-Inv : {n : ℕ} {s : Sbuf} → Reachable n s → Inv n s
Reachable-Inv start = sbuf_init-Inv _
Reachable-Inv (next r st) = Step-Inv _ st (Reachable-Inv r)

-- In every state that the threads can bring about, the connections taken out are a prefix of those
-- put in, in the same order, the rest of which are the at most `n` items that the buffer holds:
-- none is lost, handed out twice or written over before it is taken.
pub in_order :
    {n : ℕ} (s : Sbuf)
    → Reachable n s
    → (held : ℕ) × (held ≤ n)
      × (s.items ≤ held)
      × (s.slots + held ≤ n)
      × (s.sent ≡ s.received ++ window s.buf n (s.front + 1) held)
in_order s r = elim (Reachable-Inv r) [
  | inv held hn size count total rear sent ↦ (held, omega arith, omega arith, omega arith, sent)
]
