-- ===== src/Syscalls.antt =====
-- The system calls of 2024_2nd/CSE4070/Project_04/userprog/syscall.c, as the running process sees
-- them. `System` is what they call of the file system, the console, the process table and the
-- memory; an address is a number of 32 bits, 0 is NULL.
pub mod Dispatch
pub mod Guard
pub mod Settled
pub mod Calls
pub mod Balanced
pub mod Fibonacci
mod Tests
use package.sogang_university.Shared.{
  ℕ, zero, suc, ◌+◌, ◌*◌, ◌%◌, ◌^◌, Bool, true, false, not, ◌==◌, ◌||◌, ◌&&◌, ltb, if◌then◌else◌,
  Option, none, some, List, [], ◌∷◌, get_or, set,
}
use package.sogang_university.Shared.Int.{ℤ, pos, negsuc, ◌+ℤ◌, pos_part, ltb_ℤ, wrap}
use package.sogang_university.Files.{Call, returned, exited, open_file, file_at, close}

-- On the state W of all this. `none` is a page fault that page_fault (userprog/exception.c) ends by
-- exit(-1), but for input_getc and process_wait, where it is that they never return.
-- `frames` is how many calls of fibonacci the stack of the kernel has room for.
pub record System (W : Type 0) : Type 0 where
  pub frames : ℕ
  pub user_word : W → ℕ → Option ℕ
  pub store_byte : ℕ → ℕ → W → Option W
  pub say_exit : List ℕ → ℤ → W → W
  pub putbuf : ℕ → ℕ → W → Option W
  pub input_getc : W → Option (ℕ × W)
  pub filesys_open : ℕ → W → Option (ℕ × W)
  pub filesys_create : ℕ → ℕ → W → Option (Bool × W)
  pub filesys_remove : ℕ → W → Option (Bool × W)
  pub is_name : List ℕ → ℕ → W → Bool
  pub file_deny_write : ℕ → W → W
  pub deny_write : W → ℕ → Bool
  pub file_close : ℕ → W → W
  pub file_write : ℕ → ℕ → ℕ → W → Option (ℤ × W)
  pub file_read : ℕ → ℕ → ℕ → W → Option (ℤ × W)
  pub file_length : W → ℕ → ℤ
  pub file_seek : ℕ → ℕ → W → W
  pub file_tell : W → ℕ → ℕ
  pub process_execute : List ℕ → ℕ → W → Option (ℤ × W)
  pub process_wait : ℤ → W → Option (ℤ × W)

-- `holds` is whether the process holds file_lock. `cur_file` stands behind the array `fd`.
pub record Process (W : Type 0) : Type 0 where
  pub world : W
  pub name : List ℕ
  pub fd : List ℕ
  pub cur_file : ℕ
  pub holds : Bool
  pub exit_status : ℤ
  pub eax : ℕ

-- A call returns, or ends the process by a call of `exit` or by a page fault, or ends the machine, or
-- an ASSERT fails, or it recurs for ever, or it sleeps for ever.
pub data Ending (W : Type 0) : Type 0 where
  returns : ℤ → Process W → Ending W
  exits : Process W → Ending W
  killed : Process W → Ending W
  halts : W → Ending W
  asserts : Ending W
  overflows : Ending W
  sleeps : Ending W

-- An unsigned int as an int.
abbrev pub signed : ℕ → ℤ
signed v = wrap (pos v)

-- The loop of `exit` that copies the name.
abbrev pub first_word : List ℕ → List ℕ
first_word [] = []
first_word (c ∷ name) = let rest = first_word name in if c == 32 then [] else c ∷ rest

abbrev pub phys_base : ℕ
phys_base = 3221225472

-- The loop of check_addr from `i` on, with the rounds left.
pub user_words : ℕ → ℕ → ℕ → Bool
user_words zero i addr = true
user_words (suc left) i addr =
    let rest = user_words left (i + 1) addr in ltb ((addr + i * 4) % 2 ^ 32) phys_base && rest

module _ {W : Type 0} (sys : System W) where
  -- lock_acquire and lock_release of file_lock, with the ASSERTs on its holder.
  abbrev pub acquire : Process W → (Process W → Ending W) → Ending W
  acquire p go = if p.holds then asserts else go (record p { holds = true })

  abbrev pub release : Process W → (Process W → Ending W) → Ending W
  release p go = if p.holds then go (record p { holds = false }) else asserts

  -- `close` up to its exits.
  pub closed : ℤ → Process W → Option (Process W)
  closed n p = elim (close p.cur_file n p.fd) [
    | returned v fd ↦ some (record p {
      world = sys.file_close (file_at p.cur_file p.fd (pos_part n)) p.world;
      fd = fd;
      cur_file = if pos_part n == 128 then 0 else p.cur_file;
    })
    | exited ↦ none
  ]

  -- The loop of `exit` from `i` on, with the rounds left. A close of such an `i` returns.
  pub close_files : ℕ → ℕ → Process W → Process W
  unfolding closed
  close_files zero i p = p
  close_files (suc left) i p =
      close_files left (i + 1)
        (if get_or p.fd i 0 == 0 then p else elim (closed (pos i) p) [ none ↦ p | some q ↦ q ])

  -- What `exit` leaves of the process.
  pub ended : ℤ → Process W → Process W
  unfolding close_files
  ended status p =
      close_files 126 2
        (record p { world = sys.say_exit (first_word p.name) status p.world; exit_status = status })

  pub exit : ℤ → Process W → Ending W
  unfolding ended
  exit status p = exits (ended status p)

  -- page_fault, where it ends the process.
  pub page_fault : Process W → Ending W
  unfolding ended
  page_fault p = killed (ended (negsuc 0) p)

  -- An access that may fault.
  abbrev pub attempt : {A : Type 0} → Option A → Process W → (A → Ending W) → Ending W
  attempt none p go = page_fault p
  attempt (some a) p go = go a

  pub check_addr : ℕ → ℕ → Process W → (Process W → Ending W) → Ending W
  unfolding user_words exit
  check_addr addr n p go = if user_words (n + 1) 0 addr then go p else exit (negsuc 0) p

  pub exec : ℕ → Process W → Ending W
  unfolding exit page_fault
  exec file p =
      if file == 0
      then exit (negsuc 0) p
      else attempt (sys.process_execute p.fd file p.world) p
          (λ r. returns r.0 (record p { world = r.1 }))

  pub wait : ℤ → Process W → Ending W
  wait pid p = elim (sys.process_wait pid p.world) [
    | none ↦ sleeps
    | some (status, world) ↦ returns status (record p { world = world })
  ]

  abbrev pub bad_fd : ℤ → Bool
  bad_fd n = ltb_ℤ n (pos 0) || ltb_ℤ (pos 128) n

  abbrev pub file_of : ℤ → Process W → ℕ
  file_of n p = file_at p.cur_file p.fd (pos_part n)

  -- `write`, and from the place on where it holds the lock.
  pub locked_write : ℤ → ℕ → ℕ → Process W → Ending W
  unfolding exit page_fault
  locked_write n buffer size p =
      let file = file_of n p in
      let denied =
        if sys.deny_write p.world file then sys.file_deny_write file p.world else p.world in
      if pos_part n == 1
      then attempt (sys.putbuf buffer size p.world) p
          (λ world. release (record p { world = world }) (returns (signed size)))
      else if ltb_ℤ (pos 1) n
      then if file == 0
        then release p (exit (negsuc 0))
        else attempt (sys.file_write file buffer size denied) (record p { world = denied })
            (λ r. release (record p { world = r.1 }) (returns r.0))
      else release p (returns (negsuc 0))

  pub write : ℤ → ℕ → ℕ → Process W → Ending W
  unfolding locked_write check_addr
  write n buffer size p =
      if bad_fd n || (buffer == 0)
      then exit (negsuc 0) p
      else check_addr buffer 0 p (λ q. acquire q (locked_write n buffer size))

  -- The loop that reads the console from `i` on, with the rounds left, and what follows it.
  pub read_console : ℕ → ℕ → ℕ → Process W → (Process W → Ending W) → Ending W
  unfolding page_fault
  read_console zero i buffer p go = go p
  read_console (suc left) i buffer p go = elim (sys.input_getc p.world) [
    | none ↦ sleeps
    | some (key, after) ↦
        attempt (sys.store_byte ((buffer + i) % 2 ^ 32) key after) (record p { world = after })
          (λ stored.
            let q = record p { world = stored } in
            let rest = read_console left (i + 1) buffer q go in if key == 0 then go q else rest)
  ]

  pub locked_read : ℤ → ℕ → ℕ → Process W → Ending W
  unfolding exit read_console
  locked_read n buffer size p =
      let file = file_of n p in
      if pos_part n == 0
      then read_console size 0 buffer p (λ q. release q (returns (signed size)))
      else if ltb_ℤ (pos 1) n
      then if file == 0
        then release p (exit (negsuc 0))
        else attempt (sys.file_read file buffer size p.world) p
            (λ r. release (record p { world = r.1 }) (returns r.0))
      else release p (returns (negsuc 0))

  pub read : ℤ → ℕ → ℕ → Process W → Ending W
  unfolding locked_read check_addr
  read n buffer size p =
      if bad_fd n || (buffer == 0)
      then exit (negsuc 0) p
      else check_addr buffer 0 p (λ q. acquire q (locked_read n buffer size))

  abbrev pub truth : Bool → ℤ
  truth b = if b then pos 1 else pos 0

  pub create : ℕ → ℕ → Process W → Ending W
  unfolding exit page_fault
  create file size p =
      if file == 0
      then exit (negsuc 0) p
      else attempt (sys.filesys_create file size p.world) p
          (λ r. returns (truth r.0) (record p { world = r.1 }))

  pub remove : ℕ → Process W → Ending W
  unfolding exit page_fault
  remove file p =
      if file == 0
      then exit (negsuc 0) p
      else attempt (sys.filesys_remove file p.world) p
          (λ r. returns (truth r.0) (record p { world = r.1 }))

  -- `open` once filesys_open has returned NULL, or a file for which the table may have no place.
  pub found : ℕ → Process W → ℕ × W → Ending W
  found file p (fp, world) =
      let denied = if sys.is_name p.name file world then sys.file_deny_write fp world else world in
      elim (open_file fp p.fd) [
        | returned v fd ↦
            let taken = not (ltb_ℤ v (pos 0)) in
            release (record p { world = if taken then denied else world; fd = fd }) (returns v)
        | exited ↦ asserts
      ]

  pub locked_open : ℕ → Process W → Ending W
  unfolding page_fault found
  locked_open file p = attempt (sys.filesys_open file p.world) p (found file p)

  pub open_fd : ℕ → Process W → Ending W
  unfolding exit locked_open
  open_fd file p = if file == 0 then exit (negsuc 0) p else acquire p (locked_open file)

  pub close_fd : ℤ → Process W → Ending W
  unfolding closed exit
  close_fd n p = elim (closed n p) [ none ↦ exit (negsuc 0) p | some q ↦ returns (pos 0) q ]

  -- The guards that filesize, seek and tell share, and what follows them.
  pub with_file : ℤ → Process W → (ℕ → Ending W) → Ending W
  unfolding exit
  with_file n p go = if bad_fd n || (file_of n p == 0) then exit (negsuc 0) p else go (file_of n p)

  pub filesize : ℤ → Process W → Ending W
  unfolding with_file
  filesize n p = with_file n p (λ file. returns (sys.file_length p.world file) p)

  pub seek : ℤ → ℕ → Process W → Ending W
  unfolding with_file
  seek n to p =
      with_file n p (λ file. returns (pos 0) (record p { world = sys.file_seek file to p.world }))

  pub tell : ℤ → Process W → Ending W
  unfolding with_file
  tell n p = with_file n p (λ file. returns (signed (sys.file_tell p.world file)) p)
