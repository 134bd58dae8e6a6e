-- ===== src/Context/Files/Refine.antt =====
-- The file table of kernel/syscall/file.rs as a map from numbers to resources.
use redox.Prelude.{
  ℕ, ◌≡◌, ◌∙◌, ◌⊎◌, refl, Bool, true, false, List, [], ◌∷◌, ◌++◌, ◌==◌, if◌then◌else◌, arith,
  Bool-cases, inl, inr,
}
use redox.Prelude.Results.{Result, ok, err, Result-cases}
use redox.Context.Files.{
  ContextFile, has_fd, next_fd, get_file, set_file, do_sys_close, push_file, do_sys_dup,
  do_sys_open, do_sys_pipe2, with_file,
}
use redox.Context.Files.Effects.{
  Call, opened, duplicated, piped, closed, called, one, two, perform, Entered, Step, open_fails,
  opens, dup_missing, dup_fails, dups, pipe_null, pipes, close_missing, closes, call_missing, calls,
}
use redox.Context.Files.Fresh.{next_fd-Least}
use redox.Context.Files.Table.{
  Unique, has_fd-append, Unique-append, get_file-append, close_file-append, get_file_free,
  Unique-close_file, get_file-close_file,
}

-- The map that a table stands for.
abbrev pub view {ℓ} : {R : Type ℓ} → List (ContextFile R) → ℕ → Result R
view files k = get_file k files

module _ {ℓ} {R : Type ℓ} where
  get_file_taken :
      (k : ℕ) (files : List (ContextFile R))
      → has_fd k files ≡ true
      → (s : R) × (get_file k files ≡ ok s)
  unfolding has_fd get_file
  get_file_taken k [] h = cc
  get_file_taken k (f ∷ files) h = elim (Bool-cases (f.fd == k)) [
    | inl t ↦ (f.resource, rw t refl)
    | inr t ↦ let (s, e) = get_file_taken k files (ground arith) in (s, rw t e)
  ]

  -- A number has an entry or EBADF.
  get_file-cases :
      (k : ℕ) (files : List (ContextFile R))
      → ((s : R) × (get_file k files ≡ ok s)) ⊎ (get_file k files ≡ err 9)
  get_file-cases k files = elim (Bool-cases (has_fd k files)) [
    | inl t ↦ inl (get_file_taken k files t)
    | inr f ↦ inr (get_file_free k files f)
  ]

  pub push_file-Entered :
      (r : R) (files : List (ContextFile R))
      → Unique files
      → let (fd, files') = push_file r files in
        Entered fd r (view files) (view files') × Unique files'
  unfolding push_file
  push_file-Entered r files u =
      let fd = next_fd files in
      let l = next_fd-Least files in
      (
        record {
          free = get_file_free fd files l.free;
          least = λ k lt. get_file_taken k files (l.least k lt);
          updated = λ k. get_file-append k files (record { fd = fd; resource = r }) l.free;
        },
        Unique-append files (record { fd = fd; resource = r }) u l.free,
      )

  has_fd-set_file :
      (k fd : ℕ) (r : R) (files : List (ContextFile R))
      → has_fd k (set_file fd r files) ≡ has_fd k files
  unfolding has_fd set_file
  has_fd-set_file k fd r [] = refl
  has_fd-set_file k fd r (f ∷ files) = ground (arith, has_fd-set_file k fd r files)

  Unique-set_file :
      (fd : ℕ) (r : R) (files : List (ContextFile R)) → Unique files → Unique (set_file fd r files)
  unfolding set_file
  Unique-set_file fd r [] u = tt
  Unique-set_file fd r (f ∷ files) u = elim (Bool-cases (f.fd == fd)) [
    | inl t ↦ rw t u
    | inr t ↦ rw t (has_fd-set_file f.fd fd r files ∙ u.0, Unique-set_file fd r files u.1)
  ]

  get_file-set_file :
      (k fd : ℕ) (r s : R) (files : List (ContextFile R))
      → get_file fd files ≡ ok s
      → get_file k (set_file fd r files) ≡ (if k == fd then ok r else get_file k files)
  unfolding get_file set_file
  get_file-set_file k fd r s [] h = cc
  get_file-set_file k fd r s (f ∷ files) h = ground (arith, get_file-set_file k fd r s files)

  opened-Step :
      (found : Result R) (files : List (ContextFile R))
      → Unique files
      → let (r, files') = do_sys_open found files in
        Step (opened found) (view files) (one r) (view files') × Unique files'
  unfolding do_sys_open
  opened-Step (ok r) files u =
      let (entered, u') = push_file-Entered r files u in (opens entered, u')
  opened-Step (err e) files u = (open_fails (λ k. refl), u)

  duplicated-Step :
      (dup : R → Result R) (fd : ℕ) (files : List (ContextFile R))
      → Unique files
      → let (r, files') = do_sys_dup dup fd files in
        Step (duplicated dup fd) (view files) (one r) (view files') × Unique files'
  unfolding do_sys_dup
  duplicated-Step dup fd files u = elim (get_file-cases fd files) [
    | inr q ↦ rw (do_sys_dup, q) (dup_missing q (λ k. refl), u)
    | inl (r, q) ↦ elim (Result-cases (dup r)) [
      | inr (e, q') ↦ rw (do_sys_dup, q, q') (dup_fails q q' (λ k. refl), u)
      | inl (r', q') ↦
          let (entered, u') = push_file-Entered r' files u in
          rw (do_sys_dup, q, q') (dups q q' entered, u')
    ]
  ]

  piped-Step :
      (null : Bool) (read write : R) (files : List (ContextFile R))
      → Unique files
      → let (r, files') = do_sys_pipe2 null read write files in
        Step (piped null read write) (view files) (two r) (view files') × Unique files'
  unfolding do_sys_pipe2
  piped-Step true read write files u = (pipe_null (λ k. refl), u)
  piped-Step false read write files u =
      let files₁ = (push_file read files).1 in
      let (first, u₁) = push_file-Entered read files u in
      let (second, u₂) = push_file-Entered write files₁ u₁ in (pipes first second, u₂)

  closed-Step :
      (fd : ℕ) (files : List (ContextFile R))
      → Unique files
      → let (r, files') = do_sys_close fd files in
        Step (closed fd) (view files) (one r) (view files') × Unique files'
  unfolding do_sys_close
  closed-Step fd files u = elim (Bool-cases (has_fd fd files)) [
    | inl t ↦
        let (r, there) = get_file_taken fd files t in
        rw (do_sys_close, t)
          (closes there (λ k. get_file-close_file k fd files u), Unique-close_file fd files u)
    | inr f ↦ rw (do_sys_close, f) (close_missing (get_file_free fd files f) (λ k. refl), u)
  ]

  called-Step :
      (call : R → Result ℕ × R) (fd : ℕ) (files : List (ContextFile R))
      → Unique files
      → let (r, files') = with_file call fd files in
        Step (called call fd) (view files) (one r) (view files') × Unique files'
  unfolding with_file
  called-Step call fd files u = elim (get_file-cases fd files) [
    | inr q ↦ rw (with_file, q) (call_missing q (λ k. refl), u)
    | inl (r, q) ↦
        rw (with_file, q)
          (
            calls q (λ k. get_file-set_file k fd (call r).1 r files q),
            Unique-set_file fd (call r).1 files u,
          )
  ]

  -- The table refines a map from numbers to resources, on a table without a number twice. What is
  -- opened is entered under the least free number, which is returned; an error of the lookup is
  -- passed on. A duplicate of the resource of a number is entered so too; an error of the resource is
  -- passed on. A pipe enters its two ends in turn, and returns EFAULT for a null pointer. A close of a
  -- number with an entry removes that entry and returns 0. A call on the resource of a number returns
  -- what the resource does, and leaves what the resource has become under that number. A duplicate,
  -- a close or a call of a number without an entry returns EBADF. Where an error of the lookup, of the
  -- duplication, EFAULT or this EBADF is returned, the map is as before. The table behind every call
  -- is again without a number twice.
  pub perform-Step :
      (call : Call R) (files : List (ContextFile R))
      → Unique files
      → let (answer, files') = perform call files in
        Step call (view files) answer (view files') × Unique files'
  unfolding perform
  perform-Step (opened found) files u = opened-Step found files u
  perform-Step (duplicated dup fd) files u = duplicated-Step dup fd files u
  perform-Step (piped null read write) files u = piped-Step null read write files u
  perform-Step (closed fd) files u = closed-Step fd files u
  perform-Step (called call fd) files u = called-Step call fd files u

  -- What is opened on a table without a number twice and closed again leaves the table as it was.
  pub close-open :
      (r : R) (files : List (ContextFile R))
      → Unique files
      → let (fd, files') = push_file r files in do_sys_close fd files' ≡ (ok 0, files)
  unfolding push_file do_sys_close
  close-open r files u =
      let fd = next_fd files in
      let l = next_fd-Least files in
      let file : ContextFile R = record { fd = fd; resource = r } in
      let there : has_fd fd (files ++ file ∷ []) ≡ true =
        ground (arith, has_fd-append fd files file, l.free) in
      rw (there, close_file-append files file l.free) refl
