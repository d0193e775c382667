-- ===== src/Syscalls/Calls.antt =====
-- How each system call leaves the table of descriptors and file_lock.
use sogang_university.Shared.{
  ℕ, zero, suc, ◌+◌, ◌%◌, ◌^◌, ◌≡◌, dec_lt, ◌⊎◌, Option, none, some, length, refl, ◌∙◌, arith, inl,
  inr, true, false, ◌==◌, ◌||◌, if◌then◌else◌, length-set,
}
use sogang_university.Shared.Int.{ℤ, pos, negsuc, pos_part, ltb_ℤ, ◌<ℤ◌, ◌≤ℤ◌}
use sogang_university.Files.Table.{close-or, length-open_file}
use sogang_university.Syscalls.{
  System, Process, Ending, returns, overflows, sleeps, attempt, read_console, found, signed, bad_fd,
  file_of, acquire, release, truth, closed, exit, check_addr, exec, wait, locked_write, write,
  locked_read, read, create, remove, locked_open, open_fd, close_fd, with_file, filesize, seek,
  tell,
}
use sogang_university.Syscalls.Dispatch.{fibo, fibonacci}
use sogang_university.Syscalls.Fibonacci.{fibonacci_lem}
use sogang_university.Syscalls.Settled.{
  IsFree, Settled, if-Settled, attempt-Settled, check_addr-Settled, acquire-Settled, exit-Settled,
}

module _ {W : Type 0} (sys : System W) where
  -- The end of locked_read and locked_write, for an access to a file.
  filed-Settled :
      (stuck : Type 0) (n : ℤ) (p : Process W) (o : Ending W)
      → IsFree p
      → Settled stuck o
      → Settled stuck (
          if ltb_ℤ (pos 1) n
          then if file_of sys n p == 0 then exit sys (negsuc 0) p else o
          else returns (negsuc 0) p)
  filed-Settled stuck n p o k h =
      if-Settled sys stuck (ltb_ℤ (pos 1) n) _ _
        (if-Settled sys stuck (file_of sys n p == 0) _ _ (exit-Settled sys stuck (negsuc 0) p k) h)
        k

  pub locked_write-Settled :
      (stuck : Type 0) (n : ℤ) (buffer size : ℕ) (p : Process W)
      → IsFree p
      → Settled stuck (locked_write sys n buffer size (record p { holds = true }))
  unfolding locked_write
  locked_write-Settled stuck n buffer size p k =
      let q = record p { holds = true } in
      let file = file_of sys n q in
      let denied =
        if sys.deny_write p.world file then sys.file_deny_write file p.world else p.world in
      if-Settled sys stuck (pos_part n == 1) _ _
        (attempt-Settled sys stuck (sys.putbuf buffer size p.world) q
          (λ world. release sys (record q { world = world }) (returns (signed size))) k.size
          (λ w e. record { size = k.size; unlocked = refl }))
        (filed-Settled stuck n (record p { holds = false }) _
          (record { size = k.size; unlocked = refl })
          (attempt-Settled sys stuck (sys.file_write file buffer size denied)
            (record q { world = denied })
            (λ r. release sys (record q { world = r.1 }) (returns r.0)) k.size
            (λ r e. record { size = k.size; unlocked = refl })))

  read_console-Settled :
      (stuck : Type 0) (left i buffer : ℕ) (p : Process W) (go : Process W → Ending W)
      → length p.fd ≡ 128
      → ((w : W) → Settled stuck (go (record p { world = w })))
      → Settled stuck (read_console sys left i buffer p go)
  unfolding read_console
  read_console-Settled stuck zero i buffer p go size h = h p.world
  read_console-Settled stuck (suc left) i buffer p go size h =
      elim (sys.input_getc p.world)
        as (λ o. Settled stuck (elim o [
          | none ↦ sleeps
          | some key ↦
              attempt sys (sys.store_byte ((buffer + i) % 2 ^ 32) key.0 key.1)
                (record p { world = key.1 })
                (λ stored.
                  if key.0 == 0
                  then go (record p { world = stored })
                  else read_console sys left (i + 1) buffer (record p { world = stored }) go)
        ])) [
          | none ↦ tt
          | some (key, after) ↦
              attempt-Settled sys stuck (sys.store_byte ((buffer + i) % 2 ^ 32) key after)
                (record p { world = after })
                (λ stored.
                  if key == 0
                  then go (record p { world = stored })
                  else read_console sys left (i + 1) buffer (record p { world = stored }) go)
                size
                (λ stored e. if-Settled sys stuck (key == 0) _ _ (h stored) (
                  read_console-Settled stuck left (i + 1) buffer (record p { world = stored }) go
                    size h))
        ]

  pub locked_read-Settled :
      (stuck : Type 0) (n : ℤ) (buffer size : ℕ) (p : Process W)
      → IsFree p
      → Settled stuck (locked_read sys n buffer size (record p { holds = true }))
  unfolding locked_read
  locked_read-Settled stuck n buffer size p k =
      let q = record p { holds = true } in
      let file = file_of sys n q in
      if-Settled sys stuck (pos_part n == 0) _ _
        (read_console-Settled stuck size 0 buffer q (λ z. release sys z (returns (signed size)))
          k.size (λ w. record { size = k.size; unlocked = refl }))
        (filed-Settled stuck n (record p { holds = false }) _
          (record { size = k.size; unlocked = refl })
          (attempt-Settled sys stuck (sys.file_read file buffer size p.world) q
            (λ r. release sys (record q { world = r.1 }) (returns r.0)) k.size
            (λ r e. record { size = k.size; unlocked = refl })))

  -- read and write alike.
  pub buffered-Settled :
      (stuck : Type 0) (n : ℤ) (buffer : ℕ) (p : Process W) (locked : Process W → Ending W)
      → IsFree p
      → Settled stuck (locked (record p { holds = true }))
      → Settled stuck (
          if bad_fd sys n || (buffer == 0)
          then exit sys (negsuc 0) p
          else check_addr sys buffer 0 p (λ q. acquire sys q locked))
  buffered-Settled stuck n buffer p locked k h =
      if-Settled sys stuck (bad_fd sys n || (buffer == 0)) _ _
        (exit-Settled sys stuck (negsuc 0) p k)
        (check_addr-Settled sys stuck buffer 0 p (λ q. acquire sys q locked) k
          (acquire-Settled sys stuck p locked k h))

  pub write-Settled :
      (stuck : Type 0) (n : ℤ) (buffer size : ℕ) (p : Process W)
      → IsFree p
      → Settled stuck (write sys n buffer size p)
  unfolding write
  write-Settled stuck n buffer size p k =
      buffered-Settled stuck n buffer p (locked_write sys n buffer size) k
        (locked_write-Settled stuck n buffer size p k)

  pub read-Settled :
      (stuck : Type 0) (n : ℤ) (buffer size : ℕ) (p : Process W)
      → IsFree p
      → Settled stuck (read sys n buffer size p)
  unfolding read
  read-Settled stuck n buffer size p k =
      buffered-Settled stuck n buffer p (locked_read sys n buffer size) k
        (locked_read-Settled stuck n buffer size p k)

  -- The calls that end the process for a NULL.
  pub named-Settled :
      (stuck : Type 0) (file : ℕ) (p : Process W) (o : Ending W)
      → IsFree p
      → Settled stuck o
      → Settled stuck (if file == 0 then exit sys (negsuc 0) p else o)
  named-Settled stuck file p o k h =
      if-Settled sys stuck (file == 0) _ _ (exit-Settled sys stuck (negsuc 0) p k) h

  found-Settled :
      (stuck : Type 0) (file : ℕ) (p : Process W) (opened : ℕ × W)
      → IsFree p
      → Settled stuck (found sys file (record p { holds = true }) opened)
  unfolding found
  found-Settled stuck file p (fp, world) k =
      let (v, fd, is, same) = length-open_file fp p.fd in
      rw (found, is) (record { size = same ∙ k.size; unlocked = refl })

  pub open_fd-Settled :
      (stuck : Type 0) (file : ℕ) (p : Process W) → IsFree p → Settled stuck (open_fd sys file p)
  unfolding open_fd locked_open
  open_fd-Settled stuck file p k =
      let q = record p { holds = true } in
      let opened : Settled stuck (locked_open sys file q) =
        attempt-Settled sys stuck (sys.filesys_open file p.world) q (found sys file q) k.size
          (λ r e. found-Settled stuck file p r k) in
      named-Settled stuck file p _ k (acquire-Settled sys stuck p (locked_open sys file) k opened)

  pub close_fd-Settled :
      (stuck : Type 0) (n : ℤ) (p : Process W) → IsFree p → Settled stuck (close_fd sys n p)
  unfolding close_fd closed
  close_fd-Settled stuck n p k = elim (close-or p.cur_file n p.fd) [
    | inl e ↦ rw (close_fd, closed, e) (exit-Settled sys stuck (negsuc 0) p k)
    | inr e ↦
        rw (close_fd, closed, e)
          (record { size = length-set p.fd (pos_part n) 0 ∙ k.size; unlocked = k.unlocked })
  ]

  pub with_file-Settled :
      (stuck : Type 0) (n : ℤ) (p : Process W) (go : ℕ → Ending W)
      → IsFree p
      → Settled stuck (go (file_of sys n p))
      → Settled stuck (with_file sys n p go)
  unfolding with_file
  with_file-Settled stuck n p go k h =
      if-Settled sys stuck (bad_fd sys n || (file_of sys n p == 0)) _ _
        (exit-Settled sys stuck (negsuc 0) p k) h

  -- How fibonacci can fail to return.
  pub fibo-Settled :
      (stuck : Type 0) (n : ℤ) (p : Process W)
      → IsFree p
      → ((n <ℤ pos 0) ⊎ (pos sys.frames ≤ℤ n) → stuck)
      → Settled stuck (fibo sys n p)
  unfolding fibo
  fibo-Settled stuck (pos n) p k h = elim (dec_lt n sys.frames) [
    | yes l ↦ rw (fibo, (fibonacci_lem n).0 sys.frames l) k
    | no l ↦ either (fibonacci sys.frames (pos n)) (h (inr (omega (arith, l))))
  ]
    where
      either :
          (o : Option ℤ)
          → stuck
          → Settled stuck (elim o [ none ↦ overflows | some v ↦ returns v p ])
      either none s = s
      either (some v) s = k
  fibo-Settled stuck (negsuc n) p k h =
      either (fibonacci sys.frames (negsuc n)) (h (inl (omega arith)))
    where
      either :
          (o : Option ℤ)
          → stuck
          → Settled stuck (elim o [ none ↦ overflows | some v ↦ returns v p ])
      either none s = s
      either (some v) s = k

  pub exec-Settled :
      (stuck : Type 0) (file : ℕ) (p : Process W) → IsFree p → Settled stuck (exec sys file p)
  unfolding exec
  exec-Settled stuck file p k = named-Settled stuck file p _ k (
      attempt-Settled sys stuck (sys.process_execute p.fd file p.world) p
        (λ r. returns r.0 (record p { world = r.1 })) k.size
        (λ r e. record { size = k.size; unlocked = k.unlocked }))

  pub remove-Settled :
      (stuck : Type 0) (file : ℕ) (p : Process W) → IsFree p → Settled stuck (remove sys file p)
  unfolding remove
  remove-Settled stuck file p k = named-Settled stuck file p _ k (
      attempt-Settled sys stuck (sys.filesys_remove file p.world) p
        (λ r. returns (truth sys r.0) (record p { world = r.1 })) k.size
        (λ r e. record { size = k.size; unlocked = k.unlocked }))

  pub create-Settled :
      (stuck : Type 0) (file size : ℕ) (p : Process W)
      → IsFree p
      → Settled stuck (create sys file size p)
  unfolding create
  create-Settled stuck file size p k = named-Settled stuck file p _ k (
      attempt-Settled sys stuck (sys.filesys_create file size p.world) p
        (λ r. returns (truth sys r.0) (record p { world = r.1 })) k.size
        (λ r e. record { size = k.size; unlocked = k.unlocked }))

  pub filesize-Settled :
      (stuck : Type 0) (n : ℤ) (p : Process W) → IsFree p → Settled stuck (filesize sys n p)
  unfolding filesize
  filesize-Settled stuck n p k =
      with_file-Settled stuck n p (λ file. returns (sys.file_length p.world file) p) k k

  pub seek-Settled :
      (stuck : Type 0) (n : ℤ) (to : ℕ) (p : Process W) → IsFree p → Settled stuck (seek sys n to p)
  unfolding seek
  seek-Settled stuck n to p k =
      with_file-Settled stuck n p
        (λ file. returns (pos 0) (record p { world = sys.file_seek file to p.world })) k
        (record { size = k.size; unlocked = k.unlocked })

  pub tell-Settled :
      (stuck : Type 0) (n : ℤ) (p : Process W) → IsFree p → Settled stuck (tell sys n p)
  unfolding tell
  tell-Settled stuck n p k =
      with_file-Settled stuck n p (λ file. returns (signed (sys.file_tell p.world file)) p) k k

  pub wait-Settled :
      (stuck : Type 0) (pid : ℤ) (p : Process W) → IsFree p → Settled stuck (wait sys pid p)
  unfolding wait
  wait-Settled stuck pid p k = go (sys.process_wait pid p.world)
    where
      go :
          (o : Option (ℤ × W))
          → Settled stuck
              (elim o [ none ↦ sleeps | some r ↦ returns r.0 (record p { world = r.1 }) ])
      go none = tt
      go (some r) = record { size = k.size; unlocked = k.unlocked }
