-- ===== src/Syscalls/Settled.antt =====
-- How a system call leaves the table of descriptors and file_lock.
use sogang_university.Shared.{
  ℕ, zero, suc, ◌+◌, ◌≤◌, ◌<◌, ◌≡◌, ◌≢◌, refl, ap, ◌∙◌, arith, inl, inr, Bool, true, false,
  Bool-cases, ◌==◌, if◌then◌else◌, Option, none, some, get_or, set, length,
}
use sogang_university.Shared.Int.{ℤ, pos, negsuc}
use sogang_university.Files.{close_all}
use sogang_university.Files.Table.{close_lem, length-close_all, exit_closes}
use sogang_university.Syscalls.{
  System, Process, Ending, returns, exits, halts, asserts, overflows, file_of, user_words, acquire,
  closed, close_files, ended, exit, killed, sleeps, page_fault, attempt, check_addr, first_word,
}
use sogang_university.Syscalls.Dispatch.{with_eax}

-- A table of 128 descriptors, and file_lock not held.
pub record IsFree {W : Type 0} (p : Process W) : Type 0 where
  pub size : length p.fd ≡ 128
  pub unlocked : p.holds ≡ false

-- No file is open.
abbrev pub Closed : {W : Type 0} → Process W → Type 0
Closed p = (j : ℕ) → 2 ≤ j → j < 128 → get_or p.fd j 0 ≡ 0

-- A call that returns leaves such a process, one that ends it has closed every file too, one that
-- is killed by a page fault has closed every file, no ASSERT fails, and `stuck` says when a call never returns.
abbrev pub Settled : {W : Type 0} → Type 0 → Ending W → Type 0
Settled stuck (returns v p) = IsFree p
Settled stuck (exits p) = IsFree p × Closed p
Settled stuck (killed p) = Closed p
Settled stuck (halts w) = Unit
Settled stuck asserts = ⊥
Settled stuck overflows = stuck
Settled stuck sleeps = Unit

pub with_eax-Settled :
    {W : Type 0} (stuck : Type 0) (o : Ending W) → Settled stuck o → Settled stuck (with_eax o)
with_eax-Settled stuck (returns v p) k = record { size = k.size; unlocked = k.unlocked }
with_eax-Settled stuck (exits p) k = k
with_eax-Settled stuck (killed p) k = k
with_eax-Settled stuck (halts w) k = k
with_eax-Settled stuck asserts k = k
with_eax-Settled stuck overflows k = k
with_eax-Settled stuck sleeps k = k

module _ {W : Type 0} (sys : System W) where
  closed_lem :
      (n : ℕ) (p : Process W)
      → n < 128
      → get_or p.fd n 0 ≢ 0
      → (q : Process W) × (closed sys (pos n) p ≡ some q)
        × (q.fd ≡ set p.fd n 0)
        × (q.holds ≡ p.holds)
  unfolding closed
  closed_lem n p l h =
      let e = close_lem p.cur_file n p.fd l h in
      let q = record p {
        world = sys.file_close (file_of sys (pos n) p) p.world;
        fd = set p.fd n 0;
        cur_file = if n == 128 then 0 else p.cur_file;
      } in
      (q, rw (closed, e) refl, refl, refl)

  -- The loop of `exit` is that of the table alone.
  close_files_lem :
      (left i : ℕ) (p : Process W)
      → i + left ≤ 128
      → ((close_files sys left i p).fd ≡ close_all left i p.fd)
        × ((close_files sys left i p).holds ≡ p.holds)
  unfolding close_files close_all
  close_files_lem zero i p l = (refl, refl)
  close_files_lem (suc left) i p l = elim (Bool-cases (get_or p.fd i 0 == 0)) [
    | inl e ↦ rw (close_files, close_all, e) (close_files_lem left (i + 1) p (omega (arith, l)))
    | inr e ↦
        let (q, is, fd, holds) = closed_lem i p (omega (arith, l)) (ground (arith, e)) in
        let (same, held) = close_files_lem left (i + 1) q (omega (arith, l)) in
        rw (close_files, close_all, e, is) (same ∙ ap (close_all left (i + 1)) fd, held ∙ holds)
  ]

  ended_lem :
      (status : ℤ) (p : Process W)
      → length p.fd ≡ 128
      → (length (ended sys status p).fd ≡ 128)
        × ((ended sys status p).holds ≡ p.holds)
        × Closed (ended sys status p)
  unfolding ended
  ended_lem status p size =
      let q = record p {
        world = sys.say_exit (first_word p.name) status p.world;
        exit_status = status;
      } in
      let (fd, holds) = close_files_lem 126 2 q (omega arith) in
      (
        ap length fd ∙ length-close_all 126 2 p.fd ∙ size,
        holds,
        λ j lo hi. ap (λ z. get_or z j 0) fd ∙ exit_closes p.fd j size lo hi,
      )

  pub exit-Settled :
      (stuck : Type 0) (status : ℤ) (p : Process W) → IsFree p → Settled stuck (exit sys status p)
  unfolding exit
  exit-Settled stuck status p k =
      let (size, holds, closed) = ended_lem status p k.size in
      (record { size = size; unlocked = holds ∙ k.unlocked }, closed)

  pub attempt-Settled :
      {A : Type 0} (stuck : Type 0) (o : Option A) (p : Process W) (go : A → Ending W)
      → length p.fd ≡ 128
      → ((a : A) → o ≡ some a → Settled stuck (go a))
      → Settled stuck (attempt sys o p go)
  unfolding page_fault
  attempt-Settled stuck none p go size h = (ended_lem (negsuc 0) p size).2
  attempt-Settled stuck (some a) p go size h = h a refl

  pub if-Settled :
      (stuck : Type 0) (b : Bool) (x y : Ending W)
      → Settled stuck x
      → Settled stuck y
      → Settled stuck (if b then x else y)
  if-Settled stuck true x y h k = h
  if-Settled stuck false x y h k = k

  pub check_addr-Settled :
      (stuck : Type 0) (addr n : ℕ) (p : Process W) (go : Process W → Ending W)
      → IsFree p
      → Settled stuck (go p)
      → Settled stuck (check_addr sys addr n p go)
  unfolding check_addr
  check_addr-Settled stuck addr n p go k h =
      if-Settled stuck (user_words (n + 1) 0 addr) (go p) (exit sys (negsuc 0) p) h
        (exit-Settled stuck (negsuc 0) p k)

  pub acquire-Settled :
      (stuck : Type 0) (p : Process W) (go : Process W → Ending W)
      → IsFree p
      → Settled stuck (go (record p { holds = true }))
      → Settled stuck (acquire sys p go)
  acquire-Settled stuck p go k h = rw k.unlocked h
