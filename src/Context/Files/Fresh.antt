-- ===== src/Context/Files/Fresh.antt =====
-- `next_fd` of kernel/arch/context.rs ends, at the least free number.
use redox.Prelude.{
  ℕ, zero, suc, ◌+◌, ◌-◌, ◌≤◌, ◌<◌, ◌≡◌, ◌≢◌, ◌∙◌, refl, true, false, List, [], ◌∷◌, length, arith,
  dec_lt, Bool-cases, inl, inr,
}
use redox.Context.Files.{ContextFile, has_fd, next_fd_from, next_fd, close_file}

module _ {ℓ} {R : Type ℓ} where
  length-close_file :
      (fd : ℕ) (files : List (ContextFile R))
      → has_fd fd files ≡ true
      → length files ≡ suc (length (close_file fd files))
  unfolding has_fd close_file
  length-close_file fd [] h = cc
  length-close_file fd (file ∷ files) h = ground (arith, length-close_file fd files)

  has_fd-close_file_ne :
      (fd k : ℕ) (files : List (ContextFile R))
      → fd ≢ k
      → has_fd k (close_file fd files) ≡ has_fd k files
  unfolding has_fd close_file
  has_fd-close_file_ne fd k [] ne = refl
  has_fd-close_file_ne fd k (file ∷ files) ne = ground (arith, has_fd-close_file_ne fd k files ne)

  -- A table that holds `n` numbers from `lo` on has at least `n` files.
  pigeonhole :
      (lo n : ℕ) (files : List (ContextFile R))
      → ((k : ℕ) → lo ≤ k → k < lo + n → has_fd k files ≡ true)
      → n ≤ length files
  pigeonhole lo zero files all = omega arith
  pigeonhole lo (suc n) files all =
      let top = lo + n in
      let fewer =
        pigeonhole lo n (close_file top files) (λ k le lt.
          has_fd-close_file_ne top k files (λ e. omega arith) ∙ all k le (omega arith)) in
      omega (arith, length-close_file top files (all top (omega arith) (omega arith)))

  at_or_below :
      (lo next : ℕ) (files : List (ContextFile R))
      → ((k : ℕ) → lo ≤ k → k < next → has_fd k files ≡ true)
      → has_fd next files ≡ true
      → (k : ℕ) → lo ≤ k
      → k < next + 1
      → has_fd k files ≡ true
  at_or_below lo next files below t k ge lt = elim (dec_lt k next) [
    | yes less ↦ below k ge less
    | no not_less ↦ let e : k ≡ next = omega arith in rw e t
  ]

  -- The loop of `next_fd`, begun anywhere, ends at a free number that is not below where it began.
  pub next_fd_from_free :
      (lo fuel next : ℕ) (files : List (ContextFile R))
      → lo ≤ next
      → length files + lo ≤ next + fuel
      → ((k : ℕ) → lo ≤ k → k < next → has_fd k files ≡ true)
      → (has_fd (next_fd_from fuel next files) files ≡ false)
        × (next ≤ next_fd_from fuel next files)
  unfolding next_fd_from
  next_fd_from_free lo zero next files le h below = elim (Bool-cases (has_fd next files)) [
    | inl t ↦
        let many =
          pigeonhole lo (suc next - lo) files
            (λ k ge lt. at_or_below lo next files below t k ge (omega arith)) in
        absurd (omega arith)
    | inr f ↦ (f, omega arith)
  ]
  next_fd_from_free lo (suc fuel) next files le h below = elim (Bool-cases (has_fd next files)) [
    | inl t ↦
        let (free, ge) =
          next_fd_from_free lo fuel (next + 1) files (omega arith) (omega arith)
            (λ k ge lt. at_or_below lo next files below t k ge lt) in
        rw t (free, omega arith)
    | inr f ↦ rw f (f, omega arith)
  ]

  -- The number that `next_fd` returns is free, and the least such.
  pub record Least (files : List (ContextFile R)) (fd : ℕ) : Type 0 where
    pub free : has_fd fd files ≡ false
    pub least : (k : ℕ) → k < fd → has_fd k files ≡ true

  below_next :
      (next : ℕ) (files : List (ContextFile R))
      → ((k : ℕ) → k < next → has_fd k files ≡ true)
      → has_fd next files ≡ true
      → (k : ℕ) → k < next + 1
      → has_fd k files ≡ true
  below_next next files below t k lt = elim (dec_lt k next) [
    | yes less ↦ below k less
    | no ge ↦ let e : k ≡ next = omega arith in rw e t
  ]

  next_fd_from-Least :
      (fuel next : ℕ) (files : List (ContextFile R))
      → length files ≤ next + fuel
      → ((k : ℕ) → k < next → has_fd k files ≡ true)
      → Least files (next_fd_from fuel next files)
  unfolding next_fd_from
  next_fd_from-Least zero next files h below = elim (Bool-cases (has_fd next files)) [
    | inl t ↦
        let many =
          pigeonhole 0 (next + 1) files
            (λ k ge lt. below_next next files below t k (omega arith)) in
        absurd (omega arith)
    | inr f ↦ record { free = f; least = below }
  ]
  next_fd_from-Least (suc fuel) next files h below = elim (Bool-cases (has_fd next files)) [
    | inl t ↦
        rw t
          (next_fd_from-Least fuel (next + 1) files (omega arith) (below_next next files below t))
    | inr f ↦ rw f (record { free = f; least = below })
  ]

  -- The fuel is enough: the number that `next_fd` returns is in no entry of the table, and every
  -- smaller number is in one.
  pub next_fd-Least : (files : List (ContextFile R)) → Least files (next_fd files)
  unfolding next_fd
  next_fd-Least files =
      next_fd_from-Least (length files) 0 files (omega arith) (λ k lt. absurd (omega arith))
