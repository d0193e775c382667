-- ===== src/Arguments.antt =====
-- The stack on which a program of 2024_2nd/CSE4070/Project_04 starts: `make_stack` of
-- userprog/process.c, and strtok_r of lib/string.c as it is called there. Memory is a function from
-- the addresses of its bytes, an address has 32 bits, a string is the list of its bytes without the
-- null byte.
pub mod Image
pub mod Layout
pub mod Words
mod Tests
use package.sogang_university.Shared.{
  ℕ, zero, suc, ◌+◌, ◌-◌, ◌*◌, ◌/◌, ◌%◌, ◌^◌, ◌==◌, ltb, if◌then◌else◌, Option, none, some, List,
  [], ◌∷◌, ◌++◌, length, get_or, replicate,
}

abbrev pub Memory : Type 0
Memory = ℕ → ℕ

-- strtok_r with the delimiters " ": the bytes from the next token on, the token, and what is left
-- after it.
pub skip : List ℕ → List ℕ
skip [] = []
skip (c ∷ s) = let rest = skip s in if c == 32 then rest else c ∷ s

pub token : List ℕ → List ℕ
token [] = []
token (c ∷ s) = let rest = token s in if c == 32 then [] else c ∷ rest

pub saved : List ℕ → List ℕ
saved [] = []
saved (c ∷ s) = let rest = saved s in if c == 32 then s else rest

-- The loop over the tokens. Each takes a byte at least.
pub tokens : ℕ → List ℕ → List (List ℕ)
unfolding skip token saved
tokens zero s = []
tokens (suc fuel) s = elim (skip s) [
  | [] ↦ []
  | c ∷ rest ↦ token (c ∷ rest) ∷ tokens fuel (saved (c ∷ rest))
]

-- The stack pointer and the memory.
abbrev pub Stack : Type 0
Stack = ℕ × Memory

-- *esp -= n
abbrev pub below : ℕ → ℕ → ℕ
below esp n = (esp + 2 ^ 32 - n) % 2 ^ 32

-- memcpy(to, ...) of these bytes.
abbrev pub copied : List ℕ → ℕ → Memory → Memory
copied bs to m q =
    if ltb q to then m q else if ltb (q - to) (length bs) then get_or bs (q - to) 0 else m q

abbrev pub push : List ℕ → Stack → Stack
push bs s = let esp = below s.0 (length bs) in (esp, copied bs esp s.1)

-- The four bytes of an int or a pointer.
abbrev pub word : ℕ → List ℕ
word v = v % 256 ∷ v / 256 % 256 ∷ v / 256 / 256 % 256 ∷ v / 256 / 256 / 256 % 256 ∷ []

-- The strings with their null bytes, the last first, and `argv_addr`.
pub push_strings : List (List ℕ) → Stack → Stack × List ℕ
push_strings [] s = (s, [])
push_strings (arg ∷ args) s =
    let r = push_strings args s in let s' = push (arg ++ (0 ∷ [])) r.0 in (s', s'.0 ∷ r.1)

-- The addresses, the last first.
pub push_words : List ℕ → Stack → Stack
push_words [] s = s
push_words (v ∷ vs) s = push (word v) (push_words vs s)

abbrev pub total_length : List (List ℕ) → ℕ
total_length [] = 0
total_length (arg ∷ args) = length arg + 1 + total_length args

-- memset of the bytes up to a multiple of 4.
abbrev pub pad : ℕ → Stack → Stack
pad total s = if total % 4 == 0 then s else push (replicate (4 - total % 4) 0) s

-- `make_stack` on the arguments, or `none` where there is no room for them in `argv`.
pub push_arguments : List (List ℕ) → Stack → Option Stack
unfolding push_strings push_words
push_arguments args s =
    let (s1, addresses) = push_strings args s in
    let s2 = push (word 0) (pad (total_length args) s1) in
    let s3 = push_words addresses s2 in
    let s4 = push (word s3.0) s3 in
    let s5 = push (word (length args)) s4 in
    if ltb 128 (length args) then none else some (push (word 0) s5)

pub make_stack : List ℕ → Stack → Option Stack
unfolding tokens push_arguments
make_stack file_name s = push_arguments (tokens (length file_name + 1) file_name) s
