-- ===== src/Memory/Alloc.antt =====
-- `alloc` and `alloc_aligned` of kernel/arch/memory.rs: what a call returns and what it leaves.
use redox.Prelude.{
  ℕ, ◌+◌, ◌*◌, ◌≤◌, ◌<◌, ◌≡◌, refl, ◌∙◌, inl, inr, Bool, true, arith, leb, lt→ltb, if◌then◌else◌,
}
use redox.Memory.{
  Layout, Heap, cluster, cluster_bytes, cluster_to_address, search, claim, alloc_where,
}
use redox.Memory.Search.{
  Fits, Holds, Found, Outcome, FirstAt, search-Outcome, search-FirstAt, outside, cluster_bytes_lem,
}
use redox.Memory.Table.{between, cluster-set_clusters, bytes-set_clusters}
use redox.Memory.Bytes.{memset_lem}

module _ (m : Layout) (may_start : ℕ → Bool) (h : Heap) (size : ℕ) where
  -- A free run of clusters long enough for the request.
  pub record Room (start length : ℕ) : Type 0 where
    pub starts : may_start start ≡ true
    pub inside : start + length ≤ m.cluster_count
    pub enough : size ≤ length * 4096
    pub free : Holds m h start (start + length) 0

  -- The call took the `count` clusters from `number` on, the first that serve the request: they
  -- hold the address that is returned, their bytes are zero, and nothing else has changed.
  pub record Served (r : ℕ × Heap) (number count : ℕ) : Type 0 where
    pub found : Found m h may_start size number count
    pub first : (start length : ℕ) → Room start length → number ≤ start
    pub address : r.0 ≡ cluster_to_address m number
    pub table :
        (k : ℕ)
        → cluster m r.1 k ≡ (if between number (number + count) k then r.0 else cluster m h k)
    pub zeroed :
        (a : ℕ) → r.1.bytes a ≡ (if between r.0 (r.0 + count * 4096) a then 0 else h.bytes a)

  pub data Allocated (r : ℕ × Heap) : Type 0 where
    served : (number count : ℕ) → Served r number count → Allocated r
    full : r ≡ (0, h) → ((start length : ℕ) → ¬ Room start length) → Allocated r

  claim-Served :
      (number count : ℕ)
      → Fits m
      → Found m h may_start size number count
      → ((start length : ℕ) → Room start length → number ≤ start)
      → Served (claim m size (number, count) h) number count
  unfolding claim
  claim-Served number count f found first = rw enough' (record {
    found = found;
    first = first;
    address = refl;
    table = λ k. cluster-set_clusters m number count _ _ k found.inside ∙ unfold cluster in refl;
    zeroed = λ a. rw (bytes-set_clusters, bytes) (memset_lem (count * 4096) _ 0 h.bytes a);
  })
    where
      bytes : cluster_bytes m count ≡ count * 4096
      bytes = cluster_bytes_lem m count f (omega (arith, found.inside))

      enough' : leb size (cluster_bytes m count) ≡ true
      enough' = rw bytes (ground (arith, found.enough))

  claim-full :
      (number count : ℕ)
      → Fits m
      → (count * 4096 < size) × (count ≤ m.cluster_count)
      → claim m size (number, count) h ≡ (0, h)
  unfolding claim
  claim-full number count f (short, few) = ground (arith, cluster_bytes_lem m count f few)

  claim-Allocated :
      (r : ℕ × ℕ)
      → Fits m
      → Outcome m h may_start size r
      → ((start length : ℕ) → Room start length → FirstAt m h may_start size r start)
      → Allocated (claim m size r h)
  claim-Allocated (number, count) f (inl found) first =
      served number count
        (claim-Served number count f found (λ start length room. (first start length room).1))
  claim-Allocated (number, count) f (inr short) first =
      full (claim-full number count f short)
        (λ start length room. omega (arith, (first start length room).0))

  -- Every call takes the first run of free clusters that is long enough, or fails because there is
  -- none.
  pub alloc_where-Allocated : Fits m → 0 < size → Allocated (alloc_where m may_start h size)
  unfolding alloc_where
  alloc_where-Allocated f pos = rw (lt→ltb 0 size pos) (
      claim-Allocated (search m h may_start size m.cluster_count 0 0 0) f
        (search-Outcome m h may_start size m.cluster_count 0 0 0 f (omega arith) (omega arith)
          (omega arith) (outside refl))
        (λ start length room.
          search-FirstAt m h may_start size m.cluster_count 0 0 0 start length f (omega arith)
            (omega arith) (outside refl) (omega arith) (omega arith) room.starts room.inside
            room.enough room.free))
