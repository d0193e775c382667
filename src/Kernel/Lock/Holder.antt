-- ===== src/Kernel/Lock/Holder.antt =====
-- Who holds a lock.
use sogang_university.Shared.{ℕ, ◌≡◌, ◌≢◌, refl, sym, ap, ◌∙◌, arith}
use mathlib.Core.Path.{subst}
use sogang_university.Kernel.Semaphore.{sema_init}
use sogang_university.Kernel.Lock.{
  lock_init, outside, acquiring, inside, Sharing, Step, calls, waits, takes, tries, holds, drops,
  raises, other, Reach, start, next,
}
use sogang_university.Kernel.Lock.Value.{
  sema_down-waits, sema_down-takes, sema_try_down-takes, sema_up-value,
}
use sogang_university.Kernel.Lock.Moves.{
  Owns, IsHeld, calls-IsHeld, takes-IsHeld, holds-IsHeld, drops-IsHeld, raises-IsHeld,
}

abbrev IsFair : Sharing → Type 0
IsFair s = IsHeld s.lock.semaphore.value s.lock.holder s.stage

Step-IsFair : (s r : Sharing) → Step s r → IsFair s → IsFair r
Step-IsFair s r step k =
    let v = s.lock.semaphore.value in
    let h = s.lock.holder in
    let c = s.kernel.current in
    elim step as (λ r x. IsFair r) [
      | calls out asserted ↦ calls-IsHeld v h c s.stage k out
      | waits k' m at e ↦
          subst (λ z. IsHeld z h s.stage) (sym (sema_down-waits s.kernel k' s.lock.semaphore m e)) k
      | takes k' m at e ↦
          let (up, less) = sema_down-takes s.kernel k' s.lock.semaphore m e in
          takes-IsHeld v m.value h c acquiring s.stage k at (λ e. ground (arith, e)) up less
      | tries m at asserted e ↦
          let (up, less) = sema_try_down-takes s.lock.semaphore m e in
          takes-IsHeld v m.value h c outside s.stage k at (λ e. ground (arith, e)) up less
      | holds at ↦ holds-IsHeld v h c s.stage k at
      | drops at asserted ↦ drops-IsHeld v h c s.stage k at
      | raises k' m at e ↦
          raises-IsHeld v m.value h c s.stage k at
            (sema_up-value s.kernel s.lock.semaphore (k', m) e)
      | other k' ↦ k
    ]

Reach-IsFair : (s : Sharing) → Reach s → IsFair s
unfolding lock_init sema_init
Reach-IsFair _ (start k) = record {
  most = omega arith;
  free = λ t o. absurd o;
  one = λ t u o p. absurd o;
  held = λ t i. ground (arith, i);
  back = λ h. absurd (h refl);
}
Reach-IsFair _ (next s r reach step) = Step-IsFair s r step (Reach-IsFair s reach)

-- However the threads are switched, between the end of sema_down in lock_acquire and the beginning of
-- sema_up in lock_release there is at most one thread; the holder is the thread that has
-- acquired the lock and not begun to release it, so the ASSERT of lock_release holds; and a thread,
-- which is not NULL, that has not acquired it is not the holder, so that of lock_acquire holds.
pub lock_exclusion :
    (s : Sharing)
    → Reach s
    → ((t u : ℕ) → Owns (s.stage t) → Owns (s.stage u) → t ≡ u)
      × ((t : ℕ) → s.stage t ≡ inside → s.lock.holder ≡ t)
      × ((t : ℕ) → t ≢ 0 → s.stage t ≡ outside → s.lock.holder ≢ t)
lock_exclusion s reach =
    let k = Reach-IsFair s reach in
    (
      k.one,
      k.held,
      λ t some_thread out e.
          let in_it : s.stage t ≡ inside =
            sym (ap s.stage e) ∙ k.back (λ z. some_thread (sym e ∙ z)) in
          let no : outside ≡ inside = sym out ∙ in_it in ground (arith, no),
    )
