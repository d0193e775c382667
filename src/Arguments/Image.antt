-- ===== src/Arguments/Image.antt =====
-- What stands in memory from an address on, when bytes are pushed.
use sogang_university.Shared.{
  ℕ, zero, suc, ◌+◌, ◌-◌, ◌^◌, ◌≤◌, ◌<◌, ◌≡◌, sym, ap, ◌∙◌, arith, inl, inr, Bool-cases, ltb, true,
  false, List, [], ◌∷◌, ◌++◌, length, length-append, get_or, get_or-append_left,
}
use sogang_university.Arguments.{Memory, Stack, below, push}

-- The bytes `bs` from the stack pointer on, up to `top`, and the memory above as it was.
pub record Image (top : ℕ) (old : Memory) (bs : List ℕ) (s : Stack) : Type 0 where
  pub place : s.0 + length bs ≡ top
  pub holds : (i : ℕ) → i < length bs → s.1 (s.0 + i) ≡ get_or bs i 0
  pub above : (q : ℕ) → top ≤ q → s.1 q ≡ old q

below_lem : (esp n : ℕ) → esp < 2 ^ 32 → n ≤ esp → below esp n ≡ esp - n
below_lem esp n l m = omega arith

get_or-right :
    (xs ys : List ℕ) (i : ℕ) → length xs ≤ i → get_or (xs ++ ys) i 0 ≡ get_or ys (i - length xs) 0
get_or-right [] ys i l = let at : i ≡ i - 0 = omega arith in ap (λ z. get_or ys z 0) at
get_or-right (x ∷ xs) ys zero l = absurd (omega (arith, l))
get_or-right (x ∷ xs) ys (suc i) l =
    let at : i - length xs ≡ suc i - suc (length xs) = omega arith in
    get_or-right xs ys i (omega (arith, l)) ∙ ap (λ z. get_or ys z 0) at

pub push-Image :
    (top : ℕ) (old : Memory) (bs xs : List ℕ) (s : Stack)
    → Image top old bs s
    → top < 2 ^ 32
    → length xs ≤ s.0
    → Image top old (xs ++ bs) (push xs s)
push-Image top old bs xs s k l m =
    let at : below s.0 (length xs) ≡ s.0 - length xs =
      below_lem s.0 (length xs) (omega (arith, k.place, l)) m in
    let size = length-append xs bs in
    let esp = below s.0 (length xs) in
    record {
      place = omega (arith, at, size, k.place, m);
      holds = λ i u. elim (Bool-cases (ltb i (length xs))) [
        | inl e ↦
            let within : i < length xs = ground (arith, e) in
            let lower : ltb (esp + i) esp ≡ false = ground arith in
            let index : esp + i - esp ≡ i = omega arith in
            let here : ltb i (length xs) ≡ true = e in
            rw (lower, index, here) (sym (get_or-append_left xs bs i 0 within))
        | inr e ↦
            let past : length xs ≤ i = ground (arith, e) in
            let lower : ltb (esp + i) esp ≡ false = ground arith in
            let index : esp + i - esp ≡ i = omega arith in
            let addr : esp + i ≡ s.0 + (i - length xs) = omega (arith, at, past, m) in
            rw (lower, index, e)
              (ap s.1 addr
                ∙ k.holds (i - length xs) (omega (arith, u, size, past))
                ∙ sym (get_or-right xs bs i past))
      ];
      above = λ q u.
          let lower : ltb q esp ≡ false = ground (arith, u, at, k.place, m) in
          let out : ltb (q - esp) (length xs) ≡ false = ground (arith, u, at, k.place, m) in
          rw (lower, out) (k.above q u);
    }
