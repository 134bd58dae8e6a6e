-- ===== src/Memory/Init.antt =====
-- `cluster_init` of kernel/arch/memory.rs, and the addresses of the last clusters on i386.
use redox.Prelude.{
  ℕ, zero, suc, ◌+◌, ◌-◌, ◌*◌, ◌≤◌, ◌<◌, ◌≡◌, refl, inl, inr, Bool, true, false, arith, Bool-cases,
  ltb, ◌==◌, ◌&&◌, ◌||◌, if◌then◌else◌, List, [], ◌∷◌,
}
use redox.Memory.{
  Layout, Heap, MemoryMapEntry, cluster, set_cluster, cluster_to_address, address_to_cluster,
  covers, clear_clusters, free_entry, free_entries, cluster_init, absent, i386,
}
use redox.Memory.Table.{between, cluster-set_cluster}
use redox.Memory.Blocks.{WellFormed}

-- The map has a usable entry that covers the cluster at `address`.
abbrev pub usable : List MemoryMapEntry → ℕ → Bool
usable [] address = false
usable (entry ∷ map) address =
    (ltb 0 entry.len && entry.class == 1 && covers entry address) || usable map address

module _ (m : Layout) where
  cluster-clear_clusters :
      (n i : ℕ) (h : Heap) (k : ℕ)
      → i + n ≤ m.cluster_count
      → cluster m (clear_clusters m n i h) k
        ≡ (if between i (i + n) k then absent else cluster m h k)
  unfolding clear_clusters
  cluster-clear_clusters zero i h k le = ground arith
  cluster-clear_clusters (suc n) i h k le = ground (
    arith,
    cluster-clear_clusters n (i + 1) (set_cluster m h i absent) k,
    cluster-set_cluster m h i absent k,
  )

  cluster-free_entry :
      (entry : MemoryMapEntry) (n i : ℕ) (h : Heap) (k : ℕ)
      → i + n ≤ m.cluster_count
      → cluster m (free_entry m entry n i h) k ≡ (
          if between i (i + n) k && covers entry (cluster_to_address m k) then 0 else cluster m h k)
  unfolding free_entry
  cluster-free_entry entry zero i h k le = ground arith
  cluster-free_entry entry (suc n) i h k le =
      elim (Bool-cases (covers entry (cluster_to_address m i))) [
        | inl t ↦ rw t (
            ground (
              arith,
              cluster-free_entry entry n (i + 1) (set_cluster m h i 0) k,
              cluster-set_cluster m h i 0 k,
              same t,
            ))
        | inr t ↦ rw t (ground (arith, cluster-free_entry entry n (i + 1) h k, differ t))
      ]
    where
      same :
          covers entry (cluster_to_address m i) ≡ true
          → i ≡ k
          → covers entry (cluster_to_address m k) ≡ true
      same t e = rw e at t

      differ :
          covers entry (cluster_to_address m i) ≡ false
          → i ≡ k
          → covers entry (cluster_to_address m k) ≡ false
      differ t e = rw e at t

  cluster-free_entries :
      (map : List MemoryMapEntry) (h : Heap) (k : ℕ)
      → k < m.cluster_count
      → cluster m (free_entries m map h) k
        ≡ (if usable map (cluster_to_address m k) then 0 else cluster m h k)
  unfolding free_entries
  cluster-free_entries [] h k lt = refl
  cluster-free_entries (entry ∷ map) h k lt =
      let freed = free_entry m entry m.cluster_count 0 h in
      ground (
        arith,
        cluster-free_entries map freed k lt,
        cluster-free_entries map h k lt,
        cluster-free_entry entry m.cluster_count 0 h k (omega arith),
      )

-- After `cluster_init` a cluster of the table is free if a usable entry of the memory map covers it, and marked
-- absent otherwise.
pub cluster-cluster_init :
    (m : Layout) (map : List MemoryMapEntry) (h : Heap) (k : ℕ)
    → k < m.cluster_count
    → cluster m (cluster_init m map h) k
      ≡ (if usable map (cluster_to_address m k) then 0 else absent)
unfolding cluster_init
cluster-cluster_init m map h k lt =
    let cleared = clear_clusters m m.cluster_count 0 h in
    ground (
      arith,
      cluster-free_entries m map cleared k lt,
      cluster-clear_clusters m m.cluster_count 0 h k (omega arith),
    )

-- The table that `cluster_init` leaves is well-formed, whatever the memory held before.
pub cluster_init-WellFormed :
    (m : Layout) (map : List MemoryMapEntry) (h : Heap) → WellFormed m (cluster_init m map h)
cluster_init-WellFormed m map h i lt nz na =
    absurd (ground (arith, cluster-cluster_init m map h i lt))

-- On i386 the addresses of the last 2,561 clusters wrap. Such a cluster lies below the first one,
-- and its address is not led back to its number; and `cluster_init` makes it free wherever the
-- memory map has a usable entry for the low address.
pub i386_wraps :
    (map : List MemoryMapEntry) (h : Heap) (k : ℕ)
    → 1_046_015 ≤ k
    → k < i386.cluster_count
    → let address = (k - 1_046_015) * 4096 in
      (cluster_to_address i386 k ≡ address)
      × (address_to_cluster i386 address ≡ 0)
      × (cluster i386 (cluster_init i386 map h) k ≡ (if usable map address then 0 else absent))
i386_wraps map h k ge lt = (wrapped, below, rw (← wrapped) (cluster-cluster_init i386 map h k lt))
  where
    wrapped : cluster_to_address i386 k ≡ (k - 1_046_015) * 4096
    wrapped = unfold cluster_to_address in omega arith

    below : address_to_cluster i386 ((k - 1_046_015) * 4096) ≡ 0
    below = unfold address_to_cluster in ground arith
