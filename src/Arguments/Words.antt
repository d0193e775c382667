-- ===== src/Arguments/Words.antt =====
-- The words of a command line become the arguments.
use sogang_university.Shared.{
  ℕ, zero, suc, ◌+◌, ◌*◌, ◌%◌, ◌^◌, ◌≤◌, ◌<◌, ◌≡◌, ◌≢◌, refl, sym, ap, ◌∙◌, arith, ◌==◌, false,
  some, List, [], ◌∷◌, ◌++◌, append-nil, length, length-append, All,
}
use sogang_university.Arguments.{
  Memory, Stack, skip, token, saved, tokens, total_length, make_stack,
}
use sogang_university.Arguments.Image.{Image}
use sogang_university.Arguments.Layout.{frame, length-frame, push_arguments_lem}

-- A byte at least, and no space.
abbrev pub IsWord : List ℕ → Type 0
IsWord w = (0 < length w) × All (λ c. c ≢ 32) w

-- The words with a space between them.
abbrev pub command_line : List (List ℕ) → List ℕ
command_line [] = []
command_line (w ∷ []) = w
command_line (w ∷ v ∷ ws) = w ++ (32 ∷ command_line (v ∷ ws))

skip-word : (w rest : List ℕ) → IsWord w → skip (w ++ rest) ≡ w ++ rest
unfolding skip
skip-word [] rest k = absurd (let l = k.0 in omega (arith, l))
skip-word (c ∷ w) rest k =
    let no : (c == 32) ≡ false = let h = k.1.0 in ground (arith, h) in rw no refl

token-word : (w rest : List ℕ) → All (λ c. c ≢ 32) w → token (w ++ (32 ∷ rest)) ≡ w
unfolding token
token-word [] rest k = refl
token-word (c ∷ w) rest (h, k) =
    let no : (c == 32) ≡ false = ground (arith, h) in rw no (ap (λ z. c ∷ z) (token-word w rest k))

token-last : (w : List ℕ) → All (λ c. c ≢ 32) w → token w ≡ w
unfolding token
token-last [] k = refl
token-last (c ∷ w) (h, k) =
    let no : (c == 32) ≡ false = ground (arith, h) in rw no (ap (λ z. c ∷ z) (token-last w k))

saved-word : (w rest : List ℕ) → All (λ c. c ≢ 32) w → saved (w ++ (32 ∷ rest)) ≡ rest
unfolding saved
saved-word [] rest k = refl
saved-word (c ∷ w) rest (h, k) =
    let no : (c == 32) ≡ false = ground (arith, h) in rw no (saved-word w rest k)

saved-last : (w : List ℕ) → All (λ c. c ≢ 32) w → saved w ≡ []
unfolding saved
saved-last [] k = refl
saved-last (c ∷ w) (h, k) = let no : (c == 32) ≡ false = ground (arith, h) in rw no (saved-last w k)

-- One round of the loop over the tokens.
tokens-next :
    (fuel : ℕ) (s : List ℕ)
    → 0 < length s
    → skip s ≡ s
    → tokens (suc fuel) s ≡ token s ∷ tokens fuel (saved s)
unfolding tokens
tokens-next fuel [] l e = absurd (omega (arith, l))
tokens-next fuel (c ∷ s) l e = rw (tokens, e) refl

tokens-nil : (fuel : ℕ) → tokens fuel [] ≡ []
unfolding tokens skip
tokens-nil zero = refl
tokens-nil (suc fuel) = refl

pub tokens-command_line :
    (fuel : ℕ) (ws : List (List ℕ))
    → All IsWord ws
    → length (command_line ws) < fuel
    → tokens fuel (command_line ws) ≡ ws
tokens-command_line zero ws k l = absurd (omega (arith, l))
tokens-command_line (suc fuel) [] k l = tokens-nil (suc fuel)
tokens-command_line (suc fuel) (w ∷ []) (k, tt) l =
    let skipped : skip w ≡ w = ap skip (sym (append-nil w)) ∙ skip-word w [] k ∙ append-nil w in
    tokens-next fuel w k.0 skipped
    ∙ ap (λ z. z ∷ tokens fuel (saved w)) (token-last w k.1)
    ∙ ap (λ z. w ∷ tokens fuel z) (saved-last w k.1)
    ∙ ap (λ z. w ∷ z) (tokens-nil fuel)
tokens-command_line (suc fuel) (w ∷ v ∷ ws) (k, m) l =
    let rest = command_line (v ∷ ws) in
    let s = w ++ (32 ∷ rest) in
    let size = length-append w (32 ∷ rest) in
    tokens-next fuel s (omega (arith, size)) (skip-word w (32 ∷ rest) k)
    ∙ ap (λ z. z ∷ tokens fuel (saved s)) (token-word w rest k.1)
    ∙ ap (λ z. w ∷ tokens fuel z) (saved-word w rest k.1)
    ∙ ap (λ z. w ∷ z) (tokens-command_line fuel (v ∷ ws) m (omega (arith, l, size)))

-- A command line of up to 128 words, with room for them below `top`, where the stack is empty: the
-- stack then holds, from its new top on, a return address 0, argc, argv, which is where the addresses
-- of the words follow, NULL, and each word with its null byte where its address says. The stack
-- pointer is a multiple of 4 if `top` was, and no byte from `top` on is written.
pub make_stack_lem :
    (ws : List (List ℕ)) (top : ℕ) (old : Memory)
    → All IsWord ws
    → length ws ≤ 128
    → top < 2 ^ 32
    → top % 4 ≡ 0
    → total_length ws + 4 * length ws + 24 ≤ top
    → (s : Stack) × (make_stack (command_line ws) (top, old) ≡ some s)
      × Image top old (frame top ws (s.0 + 12)) s
      × (s.0 % 4 ≡ 0)
unfolding make_stack
make_stack_lem ws top old k few l aligned room =
    let args = tokens-command_line (length (command_line ws) + 1) ws k (omega arith) in
    let (s, is, image) = push_arguments_lem ws top old few l room in
    let size = length-frame top ws (s.0 + 12) in
    (s, rw args is, image, omega (arith, size, image.place, aligned))
