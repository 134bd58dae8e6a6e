-- ===== src/Memory/Accounts.antt =====
-- `memory_free` and `memory_used` of kernel/arch/memory.rs across an allocation.
use native.Mathlib.Nat.{mod-eq_of_lt}
use redox.Prelude.{
  ℕ, zero, suc, ◌+◌, ◌-◌, ◌*◌, ◌≤◌, ◌<◌, ◌≡◌, refl, sym, ◌∙◌, ◌≢◌, inl, inr, Bool, true, false, not,
  arith, Bool-cases, ◌==◌, ◌&&◌, if◌then◌else◌, min, max,
}
use redox.Memory.{
  Layout, Heap, cluster, count_clusters, memory_free, memory_used, absent, alloc, alloc_size,
}
use redox.Memory.Search.{Fits, Holds}
use redox.Memory.Table.{between}
use redox.Memory.Blocks.{WellFormed, alloc_size-Block, address-ne-zero, address-ne-absent}
use redox.Memory.Alloc.{Served}
use redox.Memory.Lifecycle.{Served-Block}
use redox.Memory.Contract.{any_start, alloc-Served}

module _ (m : Layout) (test : ℕ → Bool) where
  -- How many of the `n` clusters from `i` on pass the test.
  passing : Heap → ℕ → ℕ → ℕ
  passing h zero i = 0
  passing h (suc n) i = (if test (cluster m h i) then 1 else 0) + passing h n (i + 1)

  passing-le : (h : Heap) (n i : ℕ) → passing h n i ≤ n
  unfolding passing
  passing-le h zero i = omega arith
  passing-le h (suc n) i = ground (arith, passing-le h n (i + 1))

  count_clusters_lem :
      (h : Heap) (n i ret : ℕ)
      → ret + n * 4096 < m.modulus
      → count_clusters m h test n i ret ≡ ret + passing h n i * 4096
  unfolding count_clusters passing
  count_clusters_lem h zero i ret small = omega arith
  count_clusters_lem h (suc n) i ret small = elim (Bool-cases (test (cluster m h i))) [
    | inl t ↦
        rw (t, mod-eq_of_lt {n = ret + 4096} {m = m.modulus} (omega arith))
          (omega (arith, count_clusters_lem h n (i + 1) (ret + 4096) (omega arith)))
    | inr t ↦ rw t (omega (arith, count_clusters_lem h n (i + 1) ret (omega arith)))
  ]

  -- The count drops by the clusters that stop passing.
  passing-between :
      (h h' : Heap) (lo hi v n i : ℕ)
      → ((k : ℕ) → cluster m h' k ≡ (if between lo hi k then v else cluster m h k))
      → Holds m h lo hi 0
      → test 0 ≡ true
      → test v ≡ false
      → passing h' n i + (min (i + n) hi - max i lo) ≡ passing h n i
  unfolding passing
  passing-between h h' lo hi v zero i table free t0 tv = omega arith
  passing-between h h' lo hi v (suc n) i table free t0 tv =
      ground (arith, passing-between h h' lo hi v n (i + 1) table free t0 tv, table i, free i)

  -- It grows by the clusters that begin to pass.
  passing-between_grow :
      (h h' : Heap) (lo hi v n i : ℕ)
      → ((k : ℕ) → cluster m h' k ≡ (if between lo hi k then v else cluster m h k))
      → Holds m h lo hi 0
      → test 0 ≡ false
      → test v ≡ true
      → passing h' n i ≡ passing h n i + (min (i + n) hi - max i lo)
  unfolding passing
  passing-between_grow h h' lo hi v zero i table free t0 tv = omega arith
  passing-between_grow h h' lo hi v (suc n) i table free t0 tv =
      ground (arith, passing-between_grow h h' lo hi v n (i + 1) table free t0 tv, table i, free i)

abbrev is_free : ℕ → Bool
is_free c = c == 0

abbrev is_used : ℕ → Bool
is_used c = not (c == 0) && not (c == absent)

module _ (m : Layout) (h : Heap) (f : Fits m) where
  free_lem : memory_free m h ≡ passing m is_free h m.cluster_count 0 * 4096
  unfolding memory_free
  free_lem = omega (
    arith,
    f.addresses,
    count_clusters_lem m is_free h m.cluster_count 0 0 (omega (arith, f.addresses)),
  )

  used_lem : memory_used m h ≡ passing m is_used h m.cluster_count 0 * 4096
  unfolding memory_used
  used_lem = omega (
    arith,
    f.addresses,
    count_clusters_lem m is_used h m.cluster_count 0 0 (omega (arith, f.addresses)),
  )

is_free-used : (p : ℕ) → p ≢ 0 → p ≢ absent → (is_free p ≡ false) × (is_used p ≡ true)
is_free-used p nz na = (ground arith, ground arith)

module _ (m : Layout) (h : Heap) (size : ℕ) (f : Fits m) (wf : WellFormed m h)
    (pos : 0 < size) where
  module _ (r : ℕ × Heap) (number count : ℕ) (s : Served m any_start h size r number count) where
    size_lem : alloc_size m r.1 r.0 ≡ count * 4096
    size_lem = rw s.address (
        alloc_size-Block m r.1 number count f
          (Served-Block m f any_start h size r number count s pos wf))

    marked : (is_free r.0 ≡ false) × (is_used r.0 ≡ true)
    marked =
        let start : number < m.cluster_count = omega (arith, s.found.inside, s.found.enough) in
        is_free-used r.0 (λ e. address-ne-zero m number f start (sym s.address ∙ e))
          (λ e. address-ne-absent m number f start (sym s.address ∙ e))

    less : memory_free m r.1 + alloc_size m r.1 r.0 ≡ memory_free m h
    less = omega (
      arith,
      size_lem,
      s.found.inside,
      free_lem m h f,
      free_lem m r.1 f,
      passing-between m is_free h r.1 number (number + count) r.0 m.cluster_count 0 s.table
          s.found.free refl marked.0,
    )

    more : memory_used m r.1 ≡ memory_used m h + alloc_size m r.1 r.0
    more = omega (
      arith,
      size_lem,
      s.found.inside,
      used_lem m h f,
      used_lem m r.1 f,
      passing-between_grow m is_used h r.1 number (number + count) r.0 m.cluster_count 0 s.table
          s.found.free refl marked.1,
    )

-- In a well-formed table, where addresses do not wrap, a successful `alloc` of at least one byte moves
-- exactly the bytes that `alloc_size` reports for it from `memory_free` to
-- `memory_used`.
pub memory-alloc :
    (m : Layout) (h : Heap) (size : ℕ)
    → Fits m
    → WellFormed m h
    → 0 < size
    → (alloc m h size).0 ≢ 0
    → let (p, h') = alloc m h size in
      (memory_free m h' + alloc_size m h' p ≡ memory_free m h)
      × (memory_used m h' ≡ memory_used m h + alloc_size m h' p)
memory-alloc m h size f wf pos ne =
    let (number, count, s) = alloc-Served m h size f pos ne in
    let r = alloc m h size in
    (less m h size f wf pos r number count s, more m h size f wf pos r number count s)
