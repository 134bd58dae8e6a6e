-- ===== src/Context/Files/Effects.antt =====
-- The calls of kernel/syscall/file.rs that change the file table, and what each does to a map from
-- numbers to resources.
use redox.Prelude.{ℕ, ◌<◌, ◌≡◌, Bool, true, false, List, ◌==◌, if◌then◌else◌}
use redox.Prelude.Results.{Result, ok, err}
use redox.Context.Files.{
  ContextFile, do_sys_close, do_sys_dup, do_sys_open, do_sys_pipe2, with_file,
}

-- The calls that change the table, with what the rest of the kernel gives them.
pub data Call {ℓ} (R : Type ℓ) : Type ℓ where
  opened : Result R → Call R
  duplicated : (R → Result R) → ℕ → Call R
  piped : Bool → R → R → Call R
  closed : ℕ → Call R
  called : (R → Result ℕ × R) → ℕ → Call R

-- What a call returns: a number, or the two of a pipe.
pub data Answer : Type 0 where
  one : Result ℕ → Answer
  two : Result (ℕ × ℕ) → Answer

unfoldable pub perform {ℓ} :
    {R : Type ℓ} → Call R → List (ContextFile R) → Answer × List (ContextFile R)
perform (opened found) files = let (r, files') = do_sys_open found files in (one r, files')
perform (duplicated dup fd) files = let (r, files') = do_sys_dup dup fd files in (one r, files')
perform (piped null read write) files =
    let (r, files') = do_sys_pipe2 null read write files in (two r, files')
perform (closed fd) files = let (r, files') = do_sys_close fd files in (one r, files')
perform (called call fd) files = let (r, files') = with_file call fd files in (one r, files')

-- Maps from numbers to resources; the number EBADF, 9, stands for no entry.
abbrev Same {ℓ} : {R : Type ℓ} → (m m' : ℕ → Result R) → Type ℓ
Same m m' = (k : ℕ) → m' k ≡ m k

-- Only the entry of one number is changed.
abbrev Updated {ℓ} : {R : Type ℓ} → ℕ → Result R → (m m' : ℕ → Result R) → Type ℓ
Updated fd entry m m' = (k : ℕ) → m' k ≡ (if k == fd then entry else m k)

-- A resource is entered under the least number without an entry.
pub record Entered {ℓ} {R : Type ℓ} (fd : ℕ) (r : R) (m m' : ℕ → Result R) : Type ℓ where
  pub free : m fd ≡ err 9
  pub least : (k : ℕ) → k < fd → (s : R) × (m k ≡ ok s)
  pub updated : Updated fd (ok r) m m'

-- What each call does to the map, and what it returns.
pub data Step {ℓ} {R : Type ℓ} : Call R → (ℕ → Result R) → Answer → (ℕ → Result R) → Type ℓ where
  open_fails : {m m' : ℕ → Result R} {e : ℕ} → Same m m' → Step (opened (err e)) m (one (err e)) m'
  opens :
      {m m' : ℕ → Result R} {r : R} {fd : ℕ}
      → Entered fd r m m'
      → Step (opened (ok r)) m (one (ok fd)) m'
  dup_missing :
      {m m' : ℕ → Result R} {dup : R → Result R} {fd : ℕ}
      → m fd ≡ err 9
      → Same m m'
      → Step (duplicated dup fd) m (one (err 9)) m'
  dup_fails :
      {m m' : ℕ → Result R} {dup : R → Result R} {fd e : ℕ} {r : R}
      → m fd ≡ ok r
      → dup r ≡ err e
      → Same m m'
      → Step (duplicated dup fd) m (one (err e)) m'
  dups :
      {m m' : ℕ → Result R} {dup : R → Result R} {fd new_fd : ℕ} {r r' : R}
      → m fd ≡ ok r
      → dup r ≡ ok r'
      → Entered new_fd r' m m'
      → Step (duplicated dup fd) m (one (ok new_fd)) m'
  pipe_null :
      {m m' : ℕ → Result R} {read write : R}
      → Same m m'
      → Step (piped true read write) m (two (err 14)) m'
  pipes :
      {m m₁ m' : ℕ → Result R} {read write : R} {fd0 fd1 : ℕ}
      → Entered fd0 read m m₁
      → Entered fd1 write m₁ m'
      → Step (piped false read write) m (two (ok (fd0, fd1))) m'
  close_missing :
      {m m' : ℕ → Result R} {fd : ℕ}
      → m fd ≡ err 9
      → Same m m'
      → Step (closed fd) m (one (err 9)) m'
  closes :
      {m m' : ℕ → Result R} {fd : ℕ} {r : R}
      → m fd ≡ ok r
      → Updated fd (err 9) m m'
      → Step (closed fd) m (one (ok 0)) m'
  call_missing :
      {m m' : ℕ → Result R} {call : R → Result ℕ × R} {fd : ℕ}
      → m fd ≡ err 9
      → Same m m'
      → Step (called call fd) m (one (err 9)) m'
  calls :
      {m m' : ℕ → Result R} {call : R → Result ℕ × R} {fd : ℕ} {r : R}
      → m fd ≡ ok r
      → Updated fd (ok (call r).1) m m'
      → Step (called call fd) m (one (call r).0) m'
