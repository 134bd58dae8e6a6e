-- ===== src/Context/Files.antt =====
-- The file table of a context: kernel/arch/context.rs and kernel/syscall/file.rs. The table is the
-- one that `files` of the current context refers to, which threads share; `R` is the type of the
-- resources.
pub mod Fresh
pub mod Table
pub mod Effects
pub mod Refine
mod Tests
use redox.Prelude.{
  ℕ, zero, suc, ◌+◌, Bool, true, false, List, [], ◌∷◌, ◌++◌, ◌==◌, ◌||◌, if◌then◌else◌, length,
}
use redox.Prelude.Results.{Result, ok, err}

pub record ContextFile {ℓ} (R : Type ℓ) : Type ℓ where
  pub fd : ℕ
  pub resource : R

module _ {ℓ} {R : Type ℓ} where
  -- The `for` loop of `next_fd`: whether it finds a collision.
  unfoldable pub has_fd : ℕ → List (ContextFile R) → Bool
  has_fd fd [] = false
  has_fd fd (file ∷ files) = fd == file.fd || has_fd fd files

  -- The `while collision` loop, on fuel.
  unfoldable pub next_fd_from : ℕ → ℕ → List (ContextFile R) → ℕ
  next_fd_from zero next files = next
  next_fd_from (suc fuel) next files =
      let rest = next_fd_from fuel (next + 1) files in if has_fd next files then rest else next

  pub next_fd : List (ContextFile R) → ℕ
  unfolding next_fd_from has_fd
  next_fd files = next_fd_from (length files) 0 files

  -- EBADF
  pub get_file : ℕ → List (ContextFile R) → Result R
  get_file fd [] = err 9
  get_file fd (file ∷ files) = if file.fd == fd then ok file.resource else get_file fd files

  -- `get_file_mut`, and what the call leaves in the place of the resource.
  pub set_file : ℕ → R → List (ContextFile R) → List (ContextFile R)
  set_file fd r [] = []
  set_file fd r (file ∷ files) =
      if file.fd == fd then record file { resource = r } ∷ files else file ∷ set_file fd r files

  -- The table behind `do_sys_close`: without the first file of this number.
  pub close_file : ℕ → List (ContextFile R) → List (ContextFile R)
  close_file fd [] = []
  close_file fd (file ∷ files) = if file.fd == fd then files else file ∷ close_file fd files

  pub do_sys_close : ℕ → List (ContextFile R) → Result ℕ × List (ContextFile R)
  unfolding close_file has_fd
  do_sys_close fd files = if has_fd fd files then (ok 0, close_file fd files) else (err 9, files)

  -- How `do_sys_open`, `do_sys_dup` and `do_sys_pipe2` enter a resource.
  pub push_file : R → List (ContextFile R) → ℕ × List (ContextFile R)
  unfolding next_fd
  push_file r files = let fd = next_fd files in (fd, files ++ record { fd = fd; resource = r } ∷ [])

  -- `dup` is what the resource's own `dup` returns.
  pub do_sys_dup : (R → Result R) → ℕ → List (ContextFile R) → Result ℕ × List (ContextFile R)
  unfolding get_file push_file
  do_sys_dup dup fd files = elim (get_file fd files) [
    | err e ↦ (err e, files)
    | ok r ↦ elim (dup r) [
      | err e ↦ (err e, files)
      | ok r' ↦ let (new_fd, files') = push_file r' files in (ok new_fd, files')
    ]
  ]

  -- `do_sys_open` behind the lookup of the path, which gave `opened`.
  pub do_sys_open : Result R → List (ContextFile R) → Result ℕ × List (ContextFile R)
  unfolding push_file
  do_sys_open (err e) files = (err e, files)
  do_sys_open (ok r) files = let (fd, files') = push_file r files in (ok fd, files')

  -- `do_sys_pipe2`, with whether `fds` is a null pointer; the two numbers go to `fds`. EFAULT
  pub do_sys_pipe2 : Bool → R → R → List (ContextFile R) → Result (ℕ × ℕ) × List (ContextFile R)
  unfolding push_file
  do_sys_pipe2 true read write files = (err 14, files)
  do_sys_pipe2 false read write files =
      let (fd0, files') = push_file read files in
      let (fd1, files'') = push_file write files' in (ok (fd0, fd1), files'')

  -- `do_sys_read`, `do_sys_write`, `do_sys_lseek`, `do_sys_ftruncate`, `do_sys_fsync`: find the
  -- resource and call it; the call returns a result and the resource behind it.
  pub with_file {κ} :
      {A : Type κ} → (R → Result A × R) → ℕ → List (ContextFile R) → Result A × List (ContextFile R)
  unfolding get_file set_file
  with_file call fd files = elim (get_file fd files) [
    | err e ↦ (err e, files)
    | ok r ↦ let (result, r') = call r in (result, set_file fd r' files)
  ]
