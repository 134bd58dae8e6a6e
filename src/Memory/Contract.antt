-- ===== src/Memory/Contract.antt =====
-- What callers of kernel/arch/memory.rs rely on: `alloc`, `alloc_aligned`, `alloc_size` and
-- `unalloc` taken together.
use redox.Prelude.{
  ℕ, ◌+◌, ◌*◌, ◌%◌, ◌≤◌, ◌<◌, ◌≡◌, refl, ap, ◌≢◌, Bool, true, arith, eq_of_==, ◌==◌, dec_lt,
}
use redox.Memory.{
  Layout, Heap, cluster, cluster_to_address, alloc_where, alloc, alloc_aligned, alloc_size, unalloc,
}
use redox.Memory.Search.{Fits}
use redox.Memory.Blocks.{WellFormed, Block, alloc_size-Block}
use redox.Memory.Alloc.{Served, Allocated, served, full, alloc_where-Allocated}
use redox.Memory.Lifecycle.{
  Served-Block, Served-WellFormed, Served-other, Served-undone, Served-bytes,
}

abbrev pub any_start : ℕ → Bool
any_start i = true

-- Where the clusters' addresses do not wrap (`Fits`): for a request of at least one byte `alloc` takes the first run of free clusters that is long
-- enough, no cluster longer than needed: it returns the address of the first of them, marks them
-- with it, sets their bytes to zero, and changes no other cluster or byte. Where no run is long
-- enough it returns 0 and changes nothing.
pub alloc-Allocated :
    (m : Layout) (h : Heap) (size : ℕ)
    → Fits m
    → 0 < size
    → Allocated m any_start h size (alloc m h size)
unfolding alloc
alloc-Allocated m h size f pos = alloc_where-Allocated m any_start h size f pos

abbrev pub aligned_start : Layout → ℕ → ℕ → Bool
aligned_start m align i = cluster_to_address m i % align == 0

-- Where addresses do not wrap, for a request of at least one byte and a positive `align`:
-- `alloc_aligned` does the same as `alloc` among the runs whose first address is a multiple of `align`, and
-- the address that it returns is one.
pub alloc_aligned-Allocated :
    (m : Layout) (h : Heap) (size align : ℕ)
    → Fits m
    → 0 < size
    → 0 < align
    → Allocated m (aligned_start m align) h size (alloc_aligned m h size align)
      × ((alloc_aligned m h size align).0 % align ≡ 0)
unfolding alloc_aligned
alloc_aligned-Allocated m h size align f pos pos' =
    (whole, aligned (alloc_where m (aligned_start m align) h size) whole)
  where
    whole :
        Allocated m (aligned_start m align) h size (alloc_where m (aligned_start m align) h size)
    whole = alloc_where-Allocated m (aligned_start m align) h size f pos

    aligned : (r : ℕ × Heap) → Allocated m (aligned_start m align) h size r → r.0 % align ≡ 0
    aligned r (served number count s) = rw (s.address) (eq_of_== _ _ s.found.starts)
    aligned r (full e none) = rw e (omega arith)

alloc_zero : (m : Layout) (h : Heap) → alloc m h 0 ≡ (0, h)
unfolding alloc alloc_where
alloc_zero m h = refl

module _ (m : Layout) (h : Heap) (size : ℕ) where
  -- A call that does not return 0 was served.
  pub alloc-Served :
      Fits m
      → 0 < size
      → (alloc m h size).0 ≢ 0
      → (number : ℕ) × (count : ℕ) × Served m any_start h size (alloc m h size) number count
  alloc-Served f pos ne = elim (alloc-Allocated m h size f pos) [
    | served number count s ↦ (number, count, s)
    | full e none ↦ absurd (ne (ap (λ (r : ℕ × Heap). r.0) e))
  ]

-- Where addresses do not wrap, `alloc` keeps a well-formed table well-formed, whether it succeeds or not.
pub alloc-WellFormed :
    (m : Layout) (h : Heap) (size : ℕ) → Fits m → WellFormed m h → WellFormed m (alloc m h size).1
alloc-WellFormed m h size f wf = elim (dec_lt 0 size) [
  | yes pos ↦ elim (alloc-Allocated m h size f pos) [
    | served number count s ↦
        Served-WellFormed m f any_start h size (alloc m h size) number count s wf
    | full e none ↦ rw e wf
  ]
  | no le ↦ let e : size ≡ 0 = omega arith in rw (e, alloc_zero m h) wf
]

-- In a well-formed table, where addresses do not wrap, the size that `alloc_size` reports for what
-- `alloc` has just returned for a request of at least one byte is the request rounded up to whole
-- clusters, if the call succeeded.
pub alloc_size-alloc :
    (m : Layout) (h : Heap) (size : ℕ)
    → Fits m
    → WellFormed m h
    → 0 < size
    → (alloc m h size).0 ≢ 0
    → let (p, h') = alloc m h size in
      (size ≤ alloc_size m h' p)
      × (alloc_size m h' p < size + 4096)
      × (alloc_size m h' p % 4096 ≡ 0)
alloc_size-alloc m h size f wf pos ne =
    let (number, count, s) = alloc-Served m h size f pos ne in
    let e =
      alloc_size-Block m (alloc m h size).1 number count f
        (Served-Block m f any_start h size (alloc m h size) number count s pos wf) in
    rw (s.address, e) (s.found.enough, s.found.tight, omega arith)

-- In a well-formed table, where addresses do not wrap, releasing what a successful `alloc` of at
-- least one byte has just returned gives back every cluster of the table from before.
pub unalloc-alloc :
    (m : Layout) (h : Heap) (size k : ℕ)
    → Fits m
    → WellFormed m h
    → 0 < size
    → (alloc m h size).0 ≢ 0
    → let (p, h') = alloc m h size in cluster m (unalloc m h' p) k ≡ cluster m h k
unalloc-alloc m h size k f wf pos ne =
    let (number, count, s) = alloc-Served m h size f pos ne in
    rw s.address (Served-undone m f any_start h size (alloc m h size) number count s pos wf k)

-- In a well-formed table, where addresses do not wrap, an `alloc` of at least one byte, successful or
-- not, leaves every block that was allocated before a block of the same size, with the same bytes.
pub alloc-other :
    (m : Layout) (h : Heap) (size j k : ℕ)
    → Fits m
    → WellFormed m h
    → 0 < size
    → Block m h j k
    → let h' = (alloc m h size).1 in
      Block m h' j k
      × ((a : ℕ)
          → a < k * 4096
          → h'.bytes (cluster_to_address m j + a) ≡ h.bytes (cluster_to_address m j + a))
alloc-other m h size j k f wf pos b = elim (alloc-Allocated m h size f pos) [
  | served number count s ↦
      let r = alloc m h size in
      (
        Served-other m f any_start h size r number count s j k pos wf b,
        λ a lt. Served-bytes m f any_start h size r number count s j k a pos b lt,
      )
  | full e none ↦ rw e (b, λ a lt. refl)
]
