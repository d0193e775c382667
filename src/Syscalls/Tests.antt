-- ===== src/Syscalls/Tests.antt =====
-- A machine whose memory is a function from its words, and whose files and console do nothing.
use sogang_university.Shared.{
  ◌^◌, ℕ, ◌+◌, ◌<◌, ◌≡◌, refl, ◌==◌, true, false, if◌then◌else◌, none, some, [], ◌∷◌, replicate,
}
use sogang_university.Shared.Int.{pos, negsuc, wrap}
use sogang_university.Syscalls.{System, Process}
use sogang_university.Syscalls.Dispatch.{syscall_handler, fibonacci}
use sogang_university.Syscalls.Settled.{IsFree, Settled}
use sogang_university.Syscalls.Balanced.{DeepFibo, syscall_handler-Settled}
use sogang_university.Syscalls.Fibonacci.{fib, fibonacci_lem}

abbrev Words : Type 0
Words = ℕ → ℕ

abbrev machine : System Words
machine = record {
  frames = 100;
  user_word = λ w a. some (w a);
  store_byte = λ a v w. some (λ q. if q == a then v else w q);
  say_exit = λ name status w. w;
  putbuf = λ a n w. some (w);
  input_getc = λ w. some (13, w);
  filesys_open = λ name w. some (7, w);
  filesys_create = λ name size w. some (true, w);
  filesys_remove = λ name w. some (true, w);
  is_name = λ name a w. false;
  file_deny_write = λ file w. w;
  deny_write = λ w file. false;
  file_close = λ file w. w;
  file_write = λ file a n w. some (pos n, w);
  file_read = λ file a n w. some (pos n, w);
  file_length = λ w file. pos 0;
  file_seek = λ file to w. w;
  file_tell = λ w file. 0;
  process_execute = λ fd name w. some (pos 3, w);
  process_wait = λ pid w. some (negsuc 0, w);
}

-- The words of a call of write for 5 bytes at 4096 to descriptor 1, on the stack at 1000.
abbrev stack : Words
stack a =
    if a == 1000
    then 9
    else if a == 1004
    then 1
    else if a == 1008
    then 4096
    else if a == 1012
    then 5
    else 0

abbrev process : Process Words
process = record {
  world = stack;
  name = 97 ∷ [];
  fd = replicate 128 0;
  cur_file = 0;
  holds = false;
  exit_status = pos 0;
  eax = 0;
}

process-IsFree : IsFree process
process-IsFree = record { size = refl; unlocked = refl }

syscall_handler-Settled_example :
    Settled (DeepFibo machine 1000 process) (syscall_handler machine 1000 process)
syscall_handler-Settled_example = syscall_handler-Settled machine 1000 process process-IsFree

fibonacci_lem_example :
    ((fuel : ℕ) → 10 < fuel → fibonacci fuel (pos 10) ≡ some (wrap (pos (fib 10))))
    × ((fuel : ℕ) → fuel + 10 < 2 ^ 31 → fibonacci fuel (negsuc 10) ≡ none)
fibonacci_lem_example = fibonacci_lem 10
