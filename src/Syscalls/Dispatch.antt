-- ===== src/Syscalls/Dispatch.antt =====
-- `syscall_handler`: the number of the call and its arguments from the user's stack, the call, and
-- f->eax.
use sogang_university.Shared.{
  ℕ, zero, suc, ◌+◌, ◌-◌, ◌*◌, ◌>>=◌, ◌%◌, ◌^◌, ◌==◌, if◌then◌else◌, Option, none, some,
}
use sogang_university.Shared.Int.{ℤ, pos, negsuc, ◌+ℤ◌, ltb_ℤ, wrap, to_bits}
use sogang_university.Syscalls.{
  System, Process, Ending, returns, exits, halts, asserts, overflows, killed, sleeps, attempt,
  signed, exit, check_addr, exec, wait, write, read, create, remove, open_fd, close_fd, filesize,
  seek, tell,
}

-- Out of fuel it has no value: each call goes one deeper.
unfoldable pub fibonacci : ℕ → ℤ → Option ℤ
fibonacci zero n = none
fibonacci (suc fuel) (pos zero) = some (pos 0)
fibonacci (suc fuel) (pos (suc zero)) = some (pos 1)
fibonacci (suc fuel) (pos (suc (suc n))) = do
  a ← fibonacci fuel (pos (suc n))
  b ← fibonacci fuel (pos n)
  some (wrap (a +ℤ b))
fibonacci (suc fuel) (negsuc n) = do
  a ← fibonacci fuel (wrap (negsuc (n + 1)))
  b ← fibonacci fuel (wrap (negsuc (n + 2)))
  some (wrap (a +ℤ b))

unfoldable pub max_of_four_int : ℤ → ℤ → ℤ → ℤ → ℤ
max_of_four_int a b c d =
    let m = if ltb_ℤ a b then b else a in
    let m' = if ltb_ℤ m c then c else m in if ltb_ℤ m' d then d else m'

-- The numbers of lib/syscall-nr.h that the handler knows.
pub data Number : Type 0 where
  sys_halt sys_exit sys_exec sys_wait sys_write sys_read sys_fibo sys_max : Number
  sys_create sys_remove sys_open sys_close sys_filesize sys_seek sys_tell : Number

unfoldable pub number : ℕ → Option Number
number v =
    if v == 0
    then some sys_halt
    else if v == 1
    then some sys_exit
    else if v == 2
    then some sys_exec
    else if v == 3
    then some sys_wait
    else if v == 9
    then some sys_write
    else if v == 8
    then some sys_read
    else if v == 20
    then some sys_fibo
    else if v == 21
    then some sys_max
    else if v == 4
    then some sys_create
    else if v == 5
    then some sys_remove
    else if v == 6
    then some sys_open
    else if v == 12
    then some sys_close
    else if v == 7
    then some sys_filesize
    else if v == 10
    then some sys_seek
    else if v == 11
    then some sys_tell
    else none

-- The second argument of check_addr, with which each branch begins.
abbrev pub arguments : Number → ℕ
arguments sys_halt = 0
arguments sys_exit = 1
arguments sys_exec = 1
arguments sys_wait = 1
arguments sys_write = 3
arguments sys_read = 3
arguments sys_fibo = 1
arguments sys_max = 4
arguments sys_create = 2
arguments sys_remove = 1
arguments sys_open = 1
arguments sys_close = 1
arguments sys_filesize = 1
arguments sys_seek = 2
arguments sys_tell = 1

-- f->eax = ...
abbrev pub with_eax : {W : Type 0} → Ending W → Ending W
with_eax (returns v p) = returns v (record p { eax = to_bits v })
with_eax (exits p) = exits p
with_eax (killed p) = killed p
with_eax (halts w) = halts w
with_eax asserts = asserts
with_eax overflows = overflows
with_eax sleeps = sleeps

module _ {W : Type 0} (sys : System W) where
  -- esp[i], and what follows its value.
  abbrev pub argument : ℕ → ℕ → Process W → Option ℕ
  argument esp i p = sys.user_word p.world ((esp + 4 * i) % 2 ^ 32)

  abbrev pub word : ℕ → ℕ → Process W → (ℕ → Ending W) → Ending W
  word esp i p go = attempt sys (argument esp i p) p go

  abbrev pub int : ℕ → ℕ → Process W → (ℤ → Ending W) → Ending W
  int esp i p go = attempt sys (argument esp i p) p (λ a. go (signed a))

  unfoldable pub fibo : ℤ → Process W → Ending W
  unfolding fibonacci
  fibo n p = elim (fibonacci sys.frames n) [ none ↦ overflows | some v ↦ returns v p ]

  -- The call, with its arguments from the stack.
  unfoldable pub carry_out : Number → ℕ → Process W → Ending W
  carry_out sys_halt esp p = halts p.world
  carry_out sys_exit esp p =
      if esp == 2 ^ 32 - 1 then exit sys (negsuc 0) p else int esp 1 p (λ a. exit sys a p)
  carry_out sys_exec esp p = word esp 1 p (λ a. with_eax (exec sys a p))
  carry_out sys_wait esp p = int esp 1 p (λ a. with_eax (wait sys a p))
  carry_out sys_write esp p =
      int esp 1 p (λ a. word esp 2 p (λ b. word esp 3 p (λ c. with_eax (write sys a b c p))))
  carry_out sys_read esp p =
      int esp 1 p (λ a. word esp 2 p (λ b. word esp 3 p (λ c. with_eax (read sys a b c p))))
  carry_out sys_fibo esp p = int esp 1 p (λ a. with_eax (fibo a p))
  carry_out sys_max esp p = int esp 1 p (λ a.
      int esp 2 p
        (λ b. int esp 3 p (λ c. int esp 4 p (λ d. with_eax (returns (max_of_four_int a b c d) p)))))
  carry_out sys_create esp p = word esp 1 p (λ a. word esp 2 p (λ b. with_eax (create sys a b p)))
  carry_out sys_remove esp p = word esp 1 p (λ a. with_eax (remove sys a p))
  carry_out sys_open esp p = word esp 1 p (λ a. with_eax (open_fd sys a p))
  carry_out sys_close esp p = int esp 1 p (λ a. close_fd sys a p)
  carry_out sys_filesize esp p = int esp 1 p (λ a. with_eax (filesize sys a p))
  carry_out sys_seek esp p = int esp 1 p (λ a. word esp 2 p (λ b. seek sys a b p))
  carry_out sys_tell esp p = int esp 1 p (λ a. with_eax (tell sys a p))

  -- The branch for the number that stands at esp.
  unfoldable pub branch : ℕ → Process W → ℕ → Ending W
  unfolding carry_out number
  branch esp p v = elim (number v) [
    | none ↦ returns (pos 0) p
    | some call ↦ check_addr sys esp (arguments call) p (carry_out call esp)
  ]

  unfoldable pub syscall_handler : ℕ → Process W → Ending W
  unfolding branch
  syscall_handler esp p = word esp 0 p (branch esp p)
