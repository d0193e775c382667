-- ===== src/Syscalls/Fibonacci.antt =====
-- What fibonacci computes, and for which arguments it returns.
use sogang_university.Shared.{◌^◌, ℕ, zero, suc, ◌+◌, ◌<◌, ◌≡◌, refl, sym, ap, arith, none, some}
use sogang_university.Shared.Int.{pos, negsuc, ◌+ℤ◌, wrap, wrap_lem, IsInt}
use sogang_university.Syscalls.Dispatch.{fibonacci}

-- The numbers themselves, not those of 32 bits.
abbrev pub fib : ℕ → ℕ
fib zero = 0
fib (suc zero) = 1
fib (suc (suc n)) = fib (suc n) + fib n

wrap-wrap : (a b : ℕ) → wrap (wrap (pos a) +ℤ wrap (pos b)) ≡ wrap (pos (a + b))
unfolding wrap ◌+ℤ◌
wrap-wrap a b = ground arith

fibonacci-fib : (fuel n : ℕ) → n < fuel → fibonacci fuel (pos n) ≡ some (wrap (pos (fib n)))
unfolding fibonacci
fibonacci-fib zero n l = absurd (omega (arith, l))
fibonacci-fib (suc fuel) zero l = ap some (sym (wrap_lem (pos 0) (omega arith, omega arith)))
fibonacci-fib (suc fuel) (suc zero) l = ap some (sym (wrap_lem (pos 1) (omega arith, omega arith)))
fibonacci-fib (suc fuel) (suc (suc n)) l =
    rw (fibonacci-fib fuel (suc n) (omega (arith, l)), fibonacci-fib fuel n (omega (arith, l)))
      (ap some (wrap-wrap (fib (suc n)) (fib n)))

fibonacci-negative : (fuel n : ℕ) → fuel + n < 2 ^ 31 → fibonacci fuel (negsuc n) ≡ none
unfolding fibonacci
fibonacci-negative zero n l = refl
fibonacci-negative (suc zero) n l = refl
fibonacci-negative (suc (suc fuel)) n l =
    let range : IsInt (negsuc (n + 1)) = (omega arith, omega (arith, l)) in
    let deeper = fibonacci-negative (suc fuel) (n + 1) (omega (arith, l)) in
    rw (wrap_lem (negsuc (n + 1)) range, deeper) refl

-- A stack deeper than its argument is enough for fibonacci to return the Fibonacci number, wrapped to
-- 32 bits. For the negative argument -(n + 1) none of fewer than 2 ^ 31 - n calls is deep enough, which
-- is as many as there are before n - 1 leaves the range of int.
pub fibonacci_lem :
    (n : ℕ)
    → ((fuel : ℕ) → n < fuel → fibonacci fuel (pos n) ≡ some (wrap (pos (fib n))))
      × ((fuel : ℕ) → fuel + n < 2 ^ 31 → fibonacci fuel (negsuc n) ≡ none)
fibonacci_lem n = (λ fuel l. fibonacci-fib fuel n l, λ fuel l. fibonacci-negative fuel n l)
