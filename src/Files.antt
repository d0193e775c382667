-- ===== src/Files.antt =====
-- The descriptors of 2024_2nd/CSE4070/Project_04/userprog/syscall.c: `open`, `close` and the loop of
-- `exit` on the array `fd` of the running thread. A `struct file *` is a number, 0 is NULL.
-- `beyond` is what stands behind the array, which `close` reads for the descriptor 128.
pub mod Table
mod Tests
use package.sogang_university.Shared.{
  ℕ, zero, suc, ◌+◌, ◌-◌, Bool, true, false, ◌==◌, ◌||◌, ltb, if◌then◌else◌, List, [], ◌∷◌, ◌++◌,
  get_or, set, length,
}
use package.sogang_university.Shared.Int.{ℤ, pos, negsuc, pos_part, ltb_ℤ}

abbrev pub max_files : ℕ
max_files = 128

-- A call returns a value with the table left, or ends the process by exit(-1).
pub data Call : Type 0 where
  returned : ℤ → List ℕ → Call
  exited : Call

-- The loop of `open` from descriptor `i`, with the rounds left up to 128, for a file `fp`.
pub open_loop : ℕ → ℕ → ℕ → List ℕ → Call
open_loop zero i fp fd = returned (negsuc 0) fd
open_loop (suc left) i fp fd =
    let rest = open_loop left (i + 1) fp fd in
    if get_or fd i 0 == 0 then returned (pos i) (set fd i fp) else rest

-- `open` of a name that is not NULL, for which `filesys_open` returned `fp`.
pub open_file : ℕ → List ℕ → Call
unfolding open_loop
open_file fp fd = if fp == 0 then returned (negsuc 0) fd else open_loop (max_files - 2) 2 fp fd

-- The read of fd[i].
abbrev pub file_at : ℕ → List ℕ → ℕ → ℕ
file_at beyond fd i = if ltb i max_files then get_or fd i 0 else beyond

-- `close`. The write of NULL outside the array is to no file of the table.
pub close : ℕ → ℤ → List ℕ → Call
close beyond n fd =
    if ltb_ℤ n (pos 0) || ltb_ℤ (pos 128) n
    then exited
    else if file_at beyond fd (pos_part n) == 0
    then exited
    else returned (pos 0) (set fd (pos_part n) 0)

-- The loop of `exit`, with the rounds left up to 128.
unfoldable pub close_all : ℕ → ℕ → List ℕ → List ℕ
close_all zero i fd = fd
close_all (suc left) i fd = close_all left (i + 1) (if get_or fd i 0 == 0 then fd else set fd i 0)
