-- ===== src/Memory/Search.antt =====
-- The scan of `alloc` and `alloc_aligned` (kernel/arch/memory.rs): what it finds is a run of free
-- clusters just long enough, and the first such run.
use native.Mathlib.Nat.{mod-eq_of_lt}
use redox.Prelude.{
  ℕ, zero, suc, ◌+◌, ◌*◌, ◌%◌, ◌≤◌, ◌<◌, ◌≡◌, refl, ◌⊎◌, inl, inr, Bool, true, false, arith,
  Bool-cases, ltb, leb, leb→le, leb-false, eq_of_==, and_left, and_right, ◌==◌, ◌&&◌, ◌||◌, dec_lt,
}
use redox.Memory.{Layout, Heap, cluster, cluster_bytes, search, first_address, run_start}

-- No address of a cluster wraps, and clusters begin at multiples of their size.
pub record Fits (m : Layout) : Type 0 where
  pub addresses : first_address m + m.cluster_count * 4096 < m.modulus
  pub positive : 0 < m.cluster_address
  pub aligned : first_address m % 4096 ≡ 0

-- The clusters from `lo` up to `hi` hold `v`.
abbrev pub Holds : Layout → Heap → ℕ → ℕ → ℕ → Type 0
Holds m h lo hi v = (k : ℕ) → lo ≤ k → k < hi → cluster m h k ≡ v

pub Holds-empty : (m : Layout) (h : Heap) (lo v : ℕ) → Holds m h lo lo v
Holds-empty m h lo v k p q = absurd (omega arith)

pub Holds-snoc :
    (m : Layout) (h : Heap) (lo hi v : ℕ)
    → Holds m h lo hi v
    → cluster m h hi ≡ v
    → Holds m h lo (hi + 1) v
Holds-snoc m h lo hi v run last k p q = elim (dec_lt k hi) [
  | yes lt ↦ run k p lt
  | no ge ↦ let e : k ≡ hi = omega arith in rw e last
]

pub cluster_bytes_lem :
    (m : Layout) (n : ℕ) → Fits m → n ≤ m.cluster_count → cluster_bytes m n ≡ n * 4096
unfolding cluster_bytes
cluster_bytes_lem m n f h = mod-eq_of_lt (omega (arith, f.addresses))

module _ (m : Layout) (h : Heap) (may_start : ℕ → Bool) (size : ℕ) where
  -- A run that serves the request: free, long enough, no cluster longer than needed.
  pub record Found (number count : ℕ) : Type 0 where
    pub free : Holds m h number (number + count) 0
    pub inside : number + count ≤ m.cluster_count
    pub enough : size ≤ count * 4096
    pub tight : count * 4096 < size + 4096
    pub starts : may_start number ≡ true

  -- What the loop knows at `i`: no run, or the free run of `count` clusters that ends there.
  pub data Scanning (i number count : ℕ) : Type 0 where
    outside : count ≡ 0 → Scanning i number count
    within :
        number + count ≡ i
        → Holds m h number i 0
        → may_start number ≡ true
        → Scanning i number count

  abbrev pub Outcome : ℕ × ℕ → Type 0
  Outcome (number, count) = Found number count ⊎ ((count * 4096 < size) × (count ≤ m.cluster_count))

  -- One more free cluster that may belong to a run.
  extend :
      (i number count : ℕ)
      → Scanning i number count
      → (cluster m h i == 0 && (ltb 0 count || may_start i)) ≡ true
      → let started = run_start i number count in
        (started + (count + 1) ≡ i + 1) × Holds m h started (i + 1) 0 × (may_start started ≡ true)
  extend i number zero s t =
      (omega arith, Holds-snoc m h i i 0 (Holds-empty m h i 0) free, and_right _ _ t)
    where
      free : cluster m h i ≡ 0
      free = eq_of_== _ _ (and_left _ _ t)
  extend i number (suc count) (outside z) t = absurd (omega arith)
  extend i number (suc count) (within p run ok) t =
      (omega arith, Holds-snoc m h number i 0 run (eq_of_== _ _ (and_left _ _ t)), ok)

  -- The scan ends with a run that serves the request, or with too short a one.
  pub search-Outcome :
      (n i number count : ℕ)
      → Fits m
      → i + n ≡ m.cluster_count
      → count * 4096 < size
      → count ≤ i
      → Scanning i number count
      → Outcome (search m h may_start size n i number count)
  unfolding search
  search-Outcome zero i number count f e short c s = inr (short, omega arith)
  search-Outcome (suc n) i number count f e short c s =
      elim (Bool-cases (cluster m h i == 0 && (ltb 0 count || may_start i))) [
        | inl t ↦ elim (Bool-cases (leb size (cluster_bytes m (count + 1)))) [
          | inl done ↦ rw (t, done) (inl (found t done))
          | inr more ↦
              rw (t, more)
                (search-Outcome n (i + 1) (run_start i number count) (count + 1) f (omega arith)
                  (omega (arith, leb-false _ _ more, bytes)) (omega arith) (longer t))
        ]
        | inr t ↦ rw t (
            search-Outcome n (i + 1) number 0 f (omega arith) (omega arith) (omega arith)
              (outside refl))
      ]
    where
      bytes : cluster_bytes m (count + 1) ≡ (count + 1) * 4096
      bytes = cluster_bytes_lem m (count + 1) f (omega arith)

      longer :
          (cluster m h i == 0 && (ltb 0 count || may_start i)) ≡ true
          → Scanning (i + 1) (run_start i number count) (count + 1)
      longer t = let (p, run, ok) = extend i number count s t in within p run ok

      found :
          (cluster m h i == 0 && (ltb 0 count || may_start i)) ≡ true
          → leb size (cluster_bytes m (count + 1)) ≡ true
          → Found (run_start i number count) (count + 1)
      found t done =
          let (p, run, ok) = extend i number count s t in
          record {
            free = λ k lo hi. run k lo (omega arith);
            inside = omega arith;
            enough = omega (arith, leb→le _ _ done, bytes);
            tight = omega arith;
            starts = ok;
          }

  -- No request of this size fits a free run of the scan's clusters that starts before the one
  -- found; and none at all, if the scan fails.
  abbrev pub FirstAt : ℕ × ℕ → ℕ → Type 0
  FirstAt (number, count) start = (size ≤ count * 4096) × (number ≤ start)

  -- A cluster that ends every run keeps the start of a long one behind it.
  starts_later :
      (i count start length : ℕ)
      → (cluster m h i == 0 && (ltb 0 count || may_start i)) ≡ false
      → count * 4096 < size
      → size ≤ length * 4096
      → i ≤ start + count
      → may_start start ≡ true
      → Holds m h start (start + length) 0
      → i + 1 ≤ start
  starts_later i count start length t short long before ok free = elim (dec_lt i start) [
    | yes lt ↦ omega arith
    | no ge ↦
        let (z, refused) = idle (free i (omega arith) (omega arith)) in
        let here : start ≡ i = omega arith in let ok' : may_start i ≡ true = rw here at ok in cc
  ]
    where
      idle : cluster m h i ≡ 0 → (count ≡ 0) × (may_start i ≡ false)
      idle z = ground arith

  pub search-FirstAt :
      (n i number count start length : ℕ)
      → Fits m
      → i + n ≡ m.cluster_count
      → count * 4096 < size
      → Scanning i number count
      → i ≤ start + count
      → count ≤ i
      → may_start start ≡ true
      → start + length ≤ m.cluster_count
      → size ≤ length * 4096
      → Holds m h start (start + length) 0
      → FirstAt (search m h may_start size n i number count) start
  unfolding search
  search-FirstAt zero i number count start length f e short s before c ok fits long free =
      absurd (omega arith)
  search-FirstAt (suc n) i number count start length f e short s before c ok fits long free =
      elim (Bool-cases (cluster m h i == 0 && (ltb 0 count || may_start i))) [
        | inl t ↦
            let (p, run, first) = extend i number count s t in
            elim (Bool-cases (leb size (cluster_bytes m (count + 1)))) [
              | inl done ↦ rw (t, done) (omega (arith, leb→le _ _ done, bytes), omega arith)
              | inr more ↦
                  rw (t, more)
                    (search-FirstAt n (i + 1) (run_start i number count) (count + 1) start length f
                      (omega arith) (omega (arith, leb-false _ _ more, bytes)) (within p run first)
                      (omega arith) (omega arith) ok fits long free)
            ]
        | inr t ↦ rw t (
            search-FirstAt n (i + 1) number 0 start length f (omega arith) (omega arith)
              (outside refl)
              (omega (arith, starts_later i count start length t short long before ok free))
              (omega arith) ok fits long free)
      ]
    where
      bytes : cluster_bytes m (count + 1) ≡ (count + 1) * 4096
      bytes = cluster_bytes_lem m (count + 1) f (omega arith)
