-- ===== src/Syscalls/Balanced.antt =====
-- How the handler leaves them.
use sogang_university.Shared.{ℕ, ◌⊎◌, ◌==◌, ◌-◌, ◌^◌, ◌≡◌, refl, ap, Option, none, some}
use sogang_university.Shared.Int.{ℤ, pos, negsuc, ◌<ℤ◌, ◌≤ℤ◌}
use sogang_university.Syscalls.{
  System, Process, Ending, returns, signed, check_addr, exit, exec, wait, write, read, create,
  remove, open_fd, close_fd, filesize, seek, tell,
}
use sogang_university.Syscalls.Dispatch.{
  Number, sys_halt, sys_exit, sys_exec, sys_wait, sys_write, sys_read, sys_fibo, sys_max,
  sys_create, sys_remove, sys_open, sys_close, sys_filesize, sys_seek, sys_tell, number, argument,
  arguments, carry_out, branch, word, int, with_eax, fibo, max_of_four_int, syscall_handler,
}
use sogang_university.Syscalls.Settled.{
  IsFree, Settled, with_eax-Settled, if-Settled, attempt-Settled, check_addr-Settled, exit-Settled,
}
use sogang_university.Syscalls.Calls.{
  write-Settled, read-Settled, open_fd-Settled, close_fd-Settled, fibo-Settled, exec-Settled,
  remove-Settled, create-Settled, filesize-Settled, seek-Settled, tell-Settled, wait-Settled,
}

module _ {W : Type 0} (sys : System W) where
  -- How the handler can recur for ever: a call of fibonacci for a negative number, or one too great
  -- for the stack.
  abbrev pub DeepFibo : ℕ → Process W → Type 0
  DeepFibo esp p =
      (v : ℕ) × (a : ℕ) × (argument sys esp 0 p ≡ some v)
      × (number v ≡ some sys_fibo)
      × (argument sys esp 1 p ≡ some a)
      × ((signed a <ℤ pos 0) ⊎ (pos sys.frames ≤ℤ signed a))

  word-Settled :
      (stuck : Type 0) (esp i : ℕ) (p : Process W) (go : ℕ → Ending W)
      → IsFree p
      → ((a : ℕ) → argument sys esp i p ≡ some a → Settled stuck (go a))
      → Settled stuck (word sys esp i p go)
  word-Settled stuck esp i p go k h = attempt-Settled sys stuck (argument sys esp i p) p go k.size h

  int-Settled :
      (stuck : Type 0) (esp i : ℕ) (p : Process W) (go : ℤ → Ending W)
      → IsFree p
      → ((a : ℕ) → argument sys esp i p ≡ some a → Settled stuck (go (signed a)))
      → Settled stuck (int sys esp i p go)
  int-Settled stuck esp i p go k h =
      attempt-Settled sys stuck (argument sys esp i p) p (λ a. go (signed a)) k.size h

  carry_out-Settled :
      (stuck : Type 0) (call : Number) (esp : ℕ) (p : Process W)
      → IsFree p
      → (call ≡ sys_fibo
          → (a : ℕ) → argument sys esp 1 p ≡ some a
          → (signed a <ℤ pos 0) ⊎ (pos sys.frames ≤ℤ signed a)
          → stuck)
      → Settled stuck (carry_out sys call esp p)
  unfolding carry_out
  carry_out-Settled stuck sys_halt esp p k h = tt
  carry_out-Settled stuck sys_exit esp p k h =
      if-Settled sys stuck (esp == 2 ^ 32 - 1) _ _ (exit-Settled sys stuck (negsuc 0) p k) (
        int-Settled stuck esp 1 p (λ a. exit sys a p) k
          (λ a e. exit-Settled sys stuck (signed a) p k))
  carry_out-Settled stuck sys_exec esp p k h =
      word-Settled stuck esp 1 p (λ a. with_eax (exec sys a p)) k
        (λ a e. with_eax-Settled stuck _ (exec-Settled sys stuck a p k))
  carry_out-Settled stuck sys_wait esp p k h =
      int-Settled stuck esp 1 p (λ a. with_eax (wait sys a p)) k
        (λ a e. with_eax-Settled stuck _ (wait-Settled sys stuck (signed a) p k))
  carry_out-Settled stuck sys_write esp p k h =
      int-Settled stuck esp 1 p
        (λ a. word sys esp 2 p (λ b. word sys esp 3 p (λ c. with_eax (write sys a b c p)))) k
        (λ a e.
          word-Settled stuck esp 2 p
            (λ b. word sys esp 3 p (λ c. with_eax (write sys (signed a) b c p))) k
            (λ b f.
              word-Settled stuck esp 3 p (λ c. with_eax (write sys (signed a) b c p)) k
                (λ c g. with_eax-Settled stuck _ (write-Settled sys stuck (signed a) b c p k))))
  carry_out-Settled stuck sys_read esp p k h =
      int-Settled stuck esp 1 p
        (λ a. word sys esp 2 p (λ b. word sys esp 3 p (λ c. with_eax (read sys a b c p)))) k
        (λ a e.
          word-Settled stuck esp 2 p
            (λ b. word sys esp 3 p (λ c. with_eax (read sys (signed a) b c p))) k
            (λ b f.
              word-Settled stuck esp 3 p (λ c. with_eax (read sys (signed a) b c p)) k
                (λ c g. with_eax-Settled stuck _ (read-Settled sys stuck (signed a) b c p k))))
  carry_out-Settled stuck sys_fibo esp p k h =
      int-Settled stuck esp 1 p (λ a. with_eax (fibo sys a p)) k
        (λ a e. with_eax-Settled stuck _ (fibo-Settled sys stuck (signed a) p k (h refl a e)))
  carry_out-Settled stuck sys_max esp p k h =
      let ends = λ (a b c d : ℤ). with_eax (returns (max_of_four_int a b c d) p) in
      int-Settled stuck esp 1 p
        (λ a. int sys esp 2 p (λ b. int sys esp 3 p (λ c. int sys esp 4 p (ends a b c)))) k
        (λ a e.
          int-Settled stuck esp 2 p
            (λ b. int sys esp 3 p (λ c. int sys esp 4 p (ends (signed a) b c))) k
            (λ b f.
              int-Settled stuck esp 3 p (λ c. int sys esp 4 p (ends (signed a) (signed b) c)) k
                (λ c g.
                  int-Settled stuck esp 4 p (ends (signed a) (signed b) (signed c)) k
                    (λ d i. record { size = k.size; unlocked = k.unlocked }))))
  carry_out-Settled stuck sys_create esp p k h =
      word-Settled stuck esp 1 p (λ a. word sys esp 2 p (λ b. with_eax (create sys a b p))) k
        (λ a e.
          word-Settled stuck esp 2 p (λ b. with_eax (create sys a b p)) k
            (λ b f. with_eax-Settled stuck _ (create-Settled sys stuck a b p k)))
  carry_out-Settled stuck sys_remove esp p k h =
      word-Settled stuck esp 1 p (λ a. with_eax (remove sys a p)) k
        (λ a e. with_eax-Settled stuck _ (remove-Settled sys stuck a p k))
  carry_out-Settled stuck sys_open esp p k h =
      word-Settled stuck esp 1 p (λ a. with_eax (open_fd sys a p)) k
        (λ a e. with_eax-Settled stuck _ (open_fd-Settled sys stuck a p k))
  carry_out-Settled stuck sys_close esp p k h =
      int-Settled stuck esp 1 p (λ a. close_fd sys a p) k
        (λ a e. close_fd-Settled sys stuck (signed a) p k)
  carry_out-Settled stuck sys_filesize esp p k h =
      int-Settled stuck esp 1 p (λ a. with_eax (filesize sys a p)) k
        (λ a e. with_eax-Settled stuck _ (filesize-Settled sys stuck (signed a) p k))
  carry_out-Settled stuck sys_seek esp p k h =
      int-Settled stuck esp 1 p (λ a. word sys esp 2 p (λ b. seek sys a b p)) k
        (λ a e.
          word-Settled stuck esp 2 p (λ b. seek sys (signed a) b p) k
            (λ b f. seek-Settled sys stuck (signed a) b p k))
  carry_out-Settled stuck sys_tell esp p k h =
      int-Settled stuck esp 1 p (λ a. with_eax (tell sys a p)) k
        (λ a e. with_eax-Settled stuck _ (tell-Settled sys stuck (signed a) p k))

  called-Settled :
      (stuck : Type 0) (call : Option Number) (esp : ℕ) (p : Process W)
      → IsFree p
      → (call ≡ some sys_fibo
          → (a : ℕ) → argument sys esp 1 p ≡ some a
          → (signed a <ℤ pos 0) ⊎ (pos sys.frames ≤ℤ signed a)
          → stuck)
      → Settled stuck (elim call [
        | none ↦ returns (pos 0) p
        | some call ↦ check_addr sys esp (arguments call) p (carry_out sys call esp)
      ])
  called-Settled stuck none esp p k h = k
  called-Settled stuck (some call) esp p k h =
      check_addr-Settled sys stuck esp (arguments call) p (carry_out sys call esp) k
        (carry_out-Settled stuck call esp p k (λ same. h (ap some same)))

  -- From a process with 128 descriptors that does not hold file_lock, a system call that returns gives
  -- such a process back. One that ends it by `exit` leaves file_lock free and no descriptor from 2 to
  -- 127 open; one that ends it by a page fault leaves none open. No ASSERT of file_lock fails, and a
  -- call overflows the stack only if it asks for fibonacci of a negative number or of one that the
  -- stack has no room for. Of a call that waits for ever for a child or a key nothing is said.
  pub syscall_handler-Settled :
      (esp : ℕ) (p : Process W) → IsFree p → Settled (DeepFibo esp p) (syscall_handler sys esp p)
  unfolding syscall_handler branch
  syscall_handler-Settled esp p k =
      word-Settled (DeepFibo esp p) esp 0 p (branch sys esp p) k (λ v e.
        called-Settled (DeepFibo esp p) (number v) esp p k (λ f a g deep. (v, a, e, f, g, deep)))
