-- ===== src/Memory/Realloc.antt =====
-- `realloc` of kernel/arch/memory.rs, on the address of a block.
use mathlib.Core.Path.{subst}
use redox.Prelude.{ℕ, ◌+◌, ◌*◌, ◌≤◌, ◌<◌, ◌≡◌, refl, sym, ◌∙◌, ap, ◌≢◌, arith, lt→ltb, min}
use redox.Memory.{
  Layout, Heap, cluster, cluster_to_address, alloc, alloc_size, unalloc, realloc, move_contents,
}
use redox.Memory.Search.{Fits}
use redox.Memory.Bytes.{moved, memmove_lem}
use redox.Memory.Blocks.{
  WellFormed, WellFormed-frame, Block, Block-frame, alloc_size-Block, address-ne-zero,
  cluster-unalloc,
}
use redox.Memory.Alloc.{Room, served, full}
use redox.Memory.Lifecycle.{Served-Block, Served-apart}
use redox.Memory.Release.{unalloc-WellFormed, unalloc-other, bytes-unalloc}
use redox.Memory.Contract.{any_start, alloc-Allocated, alloc-Served, alloc-WellFormed, alloc-other}

module _ (m : Layout) (ret ptr n : ℕ) (h : Heap) where
  cluster-move_contents : (i : ℕ) → cluster m (move_contents ret ptr n h) i ≡ cluster m h i
  unfolding cluster move_contents
  cluster-move_contents i = ground arith

  bytes-move_contents :
      (a : ℕ) → ret ≢ 0 → (move_contents ret ptr n h).bytes a ≡ moved ret ptr n h.bytes a
  unfolding move_contents
  bytes-move_contents a ne = rw (lt→ltb 0 ret (omega arith)) (memmove_lem ret ptr n h.bytes a)

module _ (m : Layout) (h : Heap) (j k size : ℕ) (f : Fits m) (b : Block m h j k) where
  abbrev ptr : ℕ
  ptr = cluster_to_address m j

  start : j < m.cluster_count
  start = omega (arith, b.positive, b.inside)

  -- A request that the block can hold returns the block and changes nothing.
  shrink : 0 < size → size ≤ k * 4096 → realloc m h ptr size ≡ (ptr, h)
  unfolding realloc
  shrink pos le = ground (arith, alloc_size-Block m h j k f b)

  grow :
      k * 4096 < size
      → realloc m h ptr size ≡ (
        (alloc m h size).0,
        unalloc m (move_contents (alloc m h size).0 ptr (k * 4096) (alloc m h size).1) ptr,
      )
  unfolding realloc
  grow lt =
      let e : min (k * 4096) size ≡ k * 4096 = omega arith in
      rw (alloc_size-Block m h j k f b, e) (ground (arith, address-ne-zero m j f start))

  module _ (wf : WellFormed m h) (lt : k * 4096 < size) where
    pos : 0 < size
    pos = omega arith

    -- The heap after the copy.
    abbrev copied : Heap
    copied = move_contents (alloc m h size).0 ptr (k * 4096) (alloc m h size).1

    copied-same : (i : ℕ) → cluster m copied i ≡ cluster m (alloc m h size).1 i
    copied-same i = cluster-move_contents m _ _ _ _ i

    copied-Block : (i l : ℕ) → Block m (alloc m h size).1 i l → Block m copied i l
    copied-Block i l =
        Block-frame m (alloc m h size).1 copied i l (λ x lo hi. copied-same x)
          (λ _ stop e. stop (sym (copied-same (i + l)) ∙ e))

    old-Block : Block m copied j k
    old-Block = copied-Block j k (alloc-other m h size j k f wf pos b).0

    released : (i : ℕ) → j ≤ i → i < j + k → cluster m (realloc m h ptr size).1 i ≡ 0
    released i lo hi = rw (grow lt) (cluster-unalloc m copied j k i f old-Block ∙ ground arith)

    whole : WellFormed m (realloc m h ptr size).1
    whole = rw (grow lt) (
        unalloc-WellFormed m copied ptr (
          WellFormed-frame m (alloc m h size).1 copied copied-same
            (alloc-WellFormed m h size f wf)))

    module _ (ne : (alloc m h size).0 ≢ 0) where
      contents :
          (a : ℕ)
          → a < k * 4096
          → (realloc m h ptr size).1.bytes ((alloc m h size).0 + a) ≡ h.bytes (ptr + a)
      contents a la =
          rw (grow lt, bytes-unalloc, bytes-move_contents m _ _ _ _ _ ne)
            (ground (arith, (alloc-other m h size j k f wf pos b).1 a la))

      room : size ≤ alloc_size m (realloc m h ptr size).1 (alloc m h size).0
      room =
          let (number, count, s) = alloc-Served m h size f pos ne in
          let r = alloc m h size in
          let apart = Served-apart m f any_start h size r number count s j k pos b in
          let fresh =
            copied-Block number count (Served-Block m f any_start h size r number count s pos wf) in
          let differ : j ≢ number = omega (arith, b.positive, s.found.enough) in
          let kept = unalloc-other m copied j k number count f old-Block fresh differ in
          subst (λ q. size ≤ alloc_size m (realloc m h ptr size).1 q) (sym s.address)
            (rw (grow lt, alloc_size-Block m (unalloc m copied ptr) number count f kept)
              s.found.enough)

-- Where addresses do not wrap: `realloc` of a block, for at least one byte and no more than the block
-- holds, returns the same address and changes nothing.
pub realloc_shrink :
    (m : Layout) (h : Heap) (j k size : ℕ)
    → Fits m
    → Block m h j k
    → 0 < size
    → size ≤ k * 4096
    → realloc m h (cluster_to_address m j) size ≡ (cluster_to_address m j, h)
realloc_shrink m h j k size f b pos le = shrink m h j k size f b pos le

-- In a well-formed table, where addresses do not wrap: `realloc` of a block, for more than it holds
-- and with room for that elsewhere, returns the address of a new block that holds it; the
-- new block begins with the bytes of the old one, whose clusters are free again; and the table
-- stays well-formed.
pub realloc_grow :
    (m : Layout) (h : Heap) (j k size : ℕ)
    → Fits m
    → WellFormed m h
    → Block m h j k
    → k * 4096 < size
    → (alloc m h size).0 ≢ 0
    → let ptr = cluster_to_address m j in
      let (ret, h') = realloc m h ptr size in
      (size ≤ alloc_size m h' ret)
      × ((a : ℕ) → a < k * 4096 → h'.bytes (ret + a) ≡ h.bytes (ptr + a))
      × ((i : ℕ) → j ≤ i → i < j + k → cluster m h' i ≡ 0)
      × WellFormed m h'
realloc_grow m h j k size f wf b lt ne =
    let same : (realloc m h (cluster_to_address m j) size).0 ≡ (alloc m h size).0 =
      ap (λ (r : ℕ × Heap). r.0) (grow m h j k size f b lt) in
    (
      rw same (room m h j k size f b wf lt ne),
      λ a la. rw same (contents m h j k size f b wf lt ne a la),
      released m h j k size f b wf lt,
      whole m h j k size f b wf lt,
    )

-- In a well-formed table, where addresses do not wrap: `realloc` of a block, for more than it holds
-- and without room for that elsewhere, returns 0, and yet the clusters of the old block are free
-- afterwards.
pub realloc_full :
    (m : Layout) (h : Heap) (j k size : ℕ)
    → Fits m
    → WellFormed m h
    → Block m h j k
    → k * 4096 < size
    → ((start length : ℕ) → ¬ Room m any_start h size start length)
    → let (ret, h') = realloc m h (cluster_to_address m j) size in
      (ret ≡ 0) × ((i : ℕ) → j ≤ i → i < j + k → cluster m h' i ≡ 0)
realloc_full m h j k size f wf b lt none = (
  ap (λ (r : ℕ × Heap). r.0) (grow m h j k size f b lt) ∙ failed,
  released m h j k size f b wf lt,
)
  where
    failed : (alloc m h size).0 ≡ 0
    failed = elim (alloc-Allocated m h size f (omega arith)) [
      | served number count s ↦ absurd (
          none number count (record {
            starts = refl;
            inside = s.found.inside;
            enough = s.found.enough;
            free = s.found.free;
          }))
      | full e _ ↦ ap (λ (r : ℕ × Heap). r.0) e
    ]
