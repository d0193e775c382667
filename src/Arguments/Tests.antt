-- ===== src/Arguments/Tests.antt =====
-- The stack of `ls -l`, from PHYS_BASE down.
use sogang_university.Shared.{ℕ, ◌+◌, ◌%◌, ◌≡◌, refl, arith, some, List, [], ◌∷◌}
use sogang_university.Arguments.{Memory, Stack, skip, token, saved, tokens, make_stack}
use sogang_university.Arguments.Image.{Image}
use sogang_university.Arguments.Layout.{frame}
use sogang_university.Arguments.Words.{command_line, make_stack_lem}

abbrev user_top : ℕ
user_top = 3221225472

abbrev unused : Memory
unused q = 204

abbrev words : List (List ℕ)
words = (108 ∷ 115 ∷ []) ∷ (45 ∷ 108 ∷ []) ∷ []

tokens_spaces : tokens 9 (32 ∷ 108 ∷ 115 ∷ 32 ∷ 32 ∷ 45 ∷ 108 ∷ 32 ∷ []) ≡ words
unfolding tokens skip token saved
tokens_spaces = refl

make_stack_lem_example :
    (s : Stack) × (make_stack (command_line words) (user_top, unused) ≡ some s)
    × Image user_top unused (frame user_top words (s.0 + 12)) s
    × (s.0 % 4 ≡ 0)
make_stack_lem_example =
    make_stack_lem words user_top unused
      (
        (omega arith, (λ e. omega (arith, e), (λ e. omega (arith, e), tt))),
        ((omega arith, (λ e. omega (arith, e), (λ e. omega (arith, e), tt))), tt),
      )
      (omega arith) (omega arith) (omega arith) (omega arith)
