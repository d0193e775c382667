-- ===== src/Arguments/Layout.antt =====
-- The stack that `make_stack` leaves.
use sogang_university.Shared.{
  ℕ, suc, ◌+◌, ◌-◌, ◌*◌, ◌%◌, ◌^◌, ◌≤◌, ◌<◌, ◌≡◌, refl, ap, ◌∙◌, arith, inl, inr, Bool-cases, ◌==◌,
  ltb, false, some, List, [], ◌∷◌, ◌++◌, length, length-append, length-replicate, replicate,
}
use mathlib.Core.Path.{subst}
use sogang_university.Arguments.{
  Memory, Stack, push, word, push_strings, push_words, total_length, pad, push_arguments,
}
use sogang_university.Arguments.Image.{Image, push-Image}

-- The strings in order, each with its null byte, the addresses where they start, and the words.
abbrev pub strings : List (List ℕ) → List ℕ
strings [] = []
strings (arg ∷ args) = (arg ++ (0 ∷ [])) ++ strings args

abbrev pub starts : ℕ → List (List ℕ) → List ℕ
starts top [] = []
starts top (arg ∷ args) = (top - total_length (arg ∷ args)) ∷ starts top args

abbrev pub words : List ℕ → List ℕ
words [] = []
words (v ∷ vs) = word v ++ words vs

abbrev pub padding : ℕ → List ℕ
padding total = replicate ((4 - total % 4) % 4) 0

-- The stack from its top on: a return address, argc, argv, the addresses of the arguments, NULL, the
-- padding, and the strings up to `top`.
abbrev pub frame : ℕ → List (List ℕ) → ℕ → List ℕ
frame top args argv =
    word 0
    ++ (word (length args)
        ++ (word argv
            ++ (words (starts top args)
                ++ (word 0 ++ (padding (total_length args) ++ strings args)))))

length-strings : (args : List (List ℕ)) → length (strings args) ≡ total_length args
length-strings [] = refl
length-strings (arg ∷ args) =
    let a = length-append (arg ++ (0 ∷ [])) (strings args) in
    let b = length-append arg (0 ∷ []) in let c = length-strings args in omega (arith, a, b, c)

length-words : (vs : List ℕ) → length (words vs) ≡ 4 * length vs
length-words [] = refl
length-words (v ∷ vs) =
    let a = length-append (word v) (words vs) in let b = length-words vs in omega (arith, a, b)

length-starts : (top : ℕ) (args : List (List ℕ)) → length (starts top args) ≡ length args
length-starts top [] = refl
length-starts top (arg ∷ args) = ap suc (length-starts top args)

push_strings-Image :
    (top : ℕ) (old : Memory) (args : List (List ℕ))
    → top < 2 ^ 32
    → total_length args ≤ top
    → Image top old (strings args) (push_strings args (top, old)).0
      × ((push_strings args (top, old)).1 ≡ starts top args)
unfolding push_strings
push_strings-Image top old [] l m = (
  record { place = omega arith; holds = λ i u. absurd (omega (arith, u)); above = λ q u. refl },
  refl,
)
push_strings-Image top old (arg ∷ args) l m =
    let (k, e) = push_strings-Image top old args l (omega (arith, m)) in
    let r = push_strings args (top, old) in
    let size = length-append arg (0 ∷ []) in
    let all = length-strings args in
    let done =
      push-Image top old (strings args) (arg ++ (0 ∷ [])) r.0 k l
        (omega (arith, m, size, all, k.place)) in
    let whole = length-strings (arg ∷ args) in
    let start : (push (arg ++ (0 ∷ [])) r.0).0 ≡ top - total_length (arg ∷ args) =
      omega (arith, done.place, whole) in
    (done, ap (λ z. z ∷ r.1) start ∙ ap (λ z. (top - total_length (arg ∷ args)) ∷ z) e)

push_words-Image :
    (top : ℕ) (old : Memory) (bs : List ℕ) (vs : List ℕ) (s : Stack)
    → Image top old bs s
    → top < 2 ^ 32
    → 4 * length vs ≤ s.0
    → Image top old (words vs ++ bs) (push_words vs s)
unfolding push_words
push_words-Image top old bs [] s k l m = k
push_words-Image top old bs (v ∷ vs) s k l m =
    let go = push_words-Image top old bs vs s k l (omega (arith, m)) in
    let a = length-append (words vs) bs in
    let b = length-words vs in
    push-Image top old (words vs ++ bs) (word v) (push_words vs s) go l
      (omega (arith, m, a, b, go.place, k.place))

pad-Image :
    (top : ℕ) (old : Memory) (bs : List ℕ) (total : ℕ) (s : Stack)
    → Image top old bs s
    → top < 2 ^ 32
    → 4 ≤ s.0
    → Image top old (padding total ++ bs) (pad total s)
pad-Image top old bs total s k l m = elim (Bool-cases (total % 4 == 0)) [
  | inl e ↦ let none : (4 - total % 4) % 4 ≡ 0 = ground (arith, e) in rw (e, none) k
  | inr e ↦
      let left : (4 - total % 4) % 4 ≡ 4 - total % 4 = ground (arith, e) in
      let size = length-replicate {A = ℕ} (4 - total % 4) 0 in
      rw (e, left)
        (push-Image top old bs (replicate (4 - total % 4) 0) s k l (omega (arith, size, m)))
]

pub length-frame :
    (top : ℕ) (args : List (List ℕ)) (argv : ℕ)
    → length (frame top args argv)
      ≡ 16 + 4 * length args + (4 - total_length args % 4) % 4 + total_length args
length-frame top args argv =
    let vs = words (starts top args) in
    let tail = padding (total_length args) ++ strings args in
    let a = length-append vs (word 0 ++ tail) in
    let b = length-append (padding (total_length args)) (strings args) in
    let c = length-replicate {A = ℕ} ((4 - total_length args % 4) % 4) 0 in
    let d = length-strings args in
    let e = length-words (starts top args) in
    let f = length-starts top args in omega (arith, a, b, c, d, e, f)

pub push_arguments_lem :
    (args : List (List ℕ)) (top : ℕ) (old : Memory)
    → length args ≤ 128
    → top < 2 ^ 32
    → total_length args + 4 * length args + 24 ≤ top
    → (s : Stack) × (push_arguments args (top, old) ≡ some s)
      × Image top old (frame top args (s.0 + 12)) s
unfolding push_arguments
push_arguments_lem args top old few l room =
    let (k1, addresses) = push_strings-Image top old args l (omega (arith, room)) in
    let total = total_length args in
    let s1 = (push_strings args (top, old)).0 in
    let size1 = length-strings args in
    let k2 =
      pad-Image top old (strings args) total s1 k1 l (omega (arith, room, size1, k1.place)) in
    let tail = padding total ++ strings args in
    let b = length-append (padding total) (strings args) in
    let c = length-replicate {A = ℕ} ((4 - total % 4) % 4) 0 in
    let k3 =
      push-Image top old tail (word 0) (pad total s1) k2 l
        (omega (arith, room, size1, b, c, k2.place)) in
    let s2 = push (word 0) (pad total s1) in
    let vs = starts top args in
    let f = length-starts top args in
    let k4 =
      push_words-Image top old (word 0 ++ tail) vs s2 k3 l
        (omega (arith, room, f, size1, b, c, k3.place)) in
    let s3 = push_words vs s2 in
    let d = length-append (words vs) (word 0 ++ tail) in
    let e = length-words vs in
    let size3 : s3.0 + 4 * length args + 4 + (4 - total % 4) % 4 + total ≡ top =
      omega (arith, k4.place, b, c, d, e, f, size1) in
    let k5 =
      push-Image top old (words vs ++ (word 0 ++ tail)) (word s3.0) s3 k4 l
        (omega (arith, size3, room)) in
    let s4 = push (word s3.0) s3 in
    let k6 =
      push-Image top old (word s3.0 ++ (words vs ++ (word 0 ++ tail))) (word (length args)) s4 k5 l
        (omega (arith, size3, room, k4.place, k5.place)) in
    let s5 = push (word (length args)) s4 in
    let k7 =
      push-Image top old (word (length args) ++ (word s3.0 ++ (words vs ++ (word 0 ++ tail))))
        (word 0) s5 k6 l (omega (arith, size3, room, k4.place, k6.place)) in
    let s6 = push (word 0) s5 in
    let ok : ltb 128 (length args) ≡ false = ground (arith, few) in
    let argv : s3.0 ≡ s6.0 + 12 = omega (arith, k4.place, k7.place) in
    (s6, rw (addresses, ok) refl, subst (λ z. Image top old (frame top args z) s6) argv k7)
