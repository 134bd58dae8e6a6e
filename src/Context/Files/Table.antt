-- ===== src/Context/Files/Table.antt =====
-- What the calls on files do to the table, kernel/syscall/file.rs.
use redox.Prelude.{
  ℕ, ◌≡◌, refl, false, List, [], ◌∷◌, ◌++◌, ◌==◌, ◌||◌, if◌then◌else◌, arith, Bool-cases, inl, inr,
}
use redox.Prelude.Results.{ok, err}
use redox.Context.Files.{ContextFile, has_fd, get_file, close_file}

module _ {ℓ} {R : Type ℓ} where
  -- No number is in two entries.
  abbrev pub Unique : List (ContextFile R) → Type 0
  Unique [] = Unit
  Unique (file ∷ files) = (has_fd file.fd files ≡ false) × Unique files

  pub has_fd-append :
      (k : ℕ) (files : List (ContextFile R)) (file : ContextFile R)
      → has_fd k (files ++ file ∷ []) ≡ has_fd k files || k == file.fd
  unfolding has_fd
  has_fd-append k [] file = ground arith
  has_fd-append k (f ∷ files) file = ground (arith, has_fd-append k files file)

  pub Unique-append :
      (files : List (ContextFile R)) (file : ContextFile R)
      → Unique files
      → has_fd file.fd files ≡ false
      → Unique (files ++ file ∷ [])
  unfolding has_fd
  Unique-append [] file u free = (refl, tt)
  Unique-append (f ∷ files) file u free =
      (ground (arith, has_fd-append f.fd files file), Unique-append files file u.1 (ground arith))

  pub get_file-append :
      (k : ℕ) (files : List (ContextFile R)) (file : ContextFile R)
      → has_fd file.fd files ≡ false
      → get_file k (files ++ file ∷ [])
        ≡ (if k == file.fd then ok file.resource else get_file k files)
  unfolding get_file has_fd
  get_file-append k [] file free = ground arith
  get_file-append k (f ∷ files) file free = ground (arith, get_file-append k files file)

  pub close_file-append :
      (files : List (ContextFile R)) (file : ContextFile R)
      → has_fd file.fd files ≡ false
      → close_file file.fd (files ++ file ∷ []) ≡ files
  unfolding close_file has_fd
  close_file-append [] file free = ground arith
  close_file-append (f ∷ files) file free = ground (arith, close_file-append files file)

  pub get_file_free :
      (k : ℕ) (files : List (ContextFile R)) → has_fd k files ≡ false → get_file k files ≡ err 9
  unfolding get_file has_fd
  get_file_free k [] h = refl
  get_file_free k (f ∷ files) h = ground (arith, get_file_free k files)

  has_fd-close_file :
      (k fd : ℕ) (files : List (ContextFile R))
      → has_fd k files ≡ false
      → has_fd k (close_file fd files) ≡ false
  unfolding close_file has_fd
  has_fd-close_file k fd [] h = refl
  has_fd-close_file k fd (f ∷ files) h = ground (arith, has_fd-close_file k fd files)

  pub Unique-close_file :
      (fd : ℕ) (files : List (ContextFile R)) → Unique files → Unique (close_file fd files)
  unfolding close_file
  Unique-close_file fd [] u = tt
  Unique-close_file fd (f ∷ files) u = elim (Bool-cases (f.fd == fd)) [
    | inl t ↦ rw t u.1
    | inr t ↦ rw t (has_fd-close_file f.fd fd files u.0, Unique-close_file fd files u.1)
  ]

  pub get_file-close_file :
      (k fd : ℕ) (files : List (ContextFile R))
      → Unique files
      → get_file k (close_file fd files) ≡ (if k == fd then err 9 else get_file k files)
  unfolding get_file close_file
  get_file-close_file k fd [] u = ground arith
  get_file-close_file k fd (f ∷ files) u =
      ground (arith, get_file-close_file k fd files u.1, get_file_free f.fd files u.0)
