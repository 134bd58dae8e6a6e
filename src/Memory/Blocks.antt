-- ===== src/Memory/Blocks.antt =====
-- Allocations as blocks of clusters (kernel/arch/memory.rs): a block is a maximal run of clusters
-- that hold the address of its first. In a well-formed table every used cluster lies in a block.
use redox.Prelude.{
  ℕ, ◌+◌, ◌-◌, ◌*◌, ◌≤◌, ◌<◌, ◌≡◌, sym, ◌∙◌, ◌≢◌, inl, inr, true, arith, ltb, lt→ltb, if◌then◌else◌,
  dec_lt,
}
use redox.Memory.{Layout, Heap, cluster, cluster_to_address, alloc_size, unalloc, absent}
use redox.Memory.Search.{Fits, Holds}
use redox.Memory.Table.{
  between, IsRun, run_size_lem, cluster-clear_run, cluster_to_address_lem,
  address_to_cluster-cluster_to_address,
}

module _ (m : Layout) where
  -- The cluster `i` lies in a block that begins at `j`.
  pub record Owner (h : Heap) (i j : ℕ) : Type 0 where
    pub before : j ≤ i
    pub holds : Holds m h j (i + 1) (cluster_to_address m j)

  -- Every cluster that is neither free nor absent has an owner.
  abbrev pub WellFormed : Heap → Type 0
  WellFormed h =
      (i : ℕ)
      → i < m.cluster_count
      → cluster m h i ≢ 0
      → cluster m h i ≢ absent
      → (j : ℕ) × Owner h i j

  -- Only the table matters.
  pub WellFormed-frame :
      (h h' : Heap) → ((i : ℕ) → cluster m h' i ≡ cluster m h i) → WellFormed h → WellFormed h'
  WellFormed-frame h h' same wf i lt nz na =
      let (j, own) = wf i lt (λ z. nz (same i ∙ z)) (λ z. na (same i ∙ z)) in
      (j, record { before = own.before; holds = λ k lo hi. same k ∙ own.holds k lo hi })

  -- The block of `k` clusters from `j` on.
  pub record Block (h : Heap) (j k : ℕ) : Type 0 where
    pub positive : 0 < k
    pub inside : j + k ≤ m.cluster_count
    pub run : IsRun m h (cluster_to_address m j) j (m.cluster_count - j) k

  pub address-ne-zero : (j : ℕ) → Fits m → j < m.cluster_count → cluster_to_address m j ≢ 0
  address-ne-zero j f lt = omega (arith, cluster_to_address_lem m j f lt, f.positive)

  pub address-ne-absent : (j : ℕ) → Fits m → j < m.cluster_count → cluster_to_address m j ≢ absent
  address-ne-absent j f lt = omega (arith, cluster_to_address_lem m j f lt, f.aligned)

  pub address_injective :
      (i j : ℕ)
      → Fits m
      → i < m.cluster_count
      → j < m.cluster_count
      → cluster_to_address m i ≡ cluster_to_address m j
      → i ≡ j
  address_injective i j f p q e =
      omega (arith, cluster_to_address_lem m i f p, cluster_to_address_lem m j f q)

  address_pos : (j : ℕ) → Fits m → j < m.cluster_count → ltb 0 (cluster_to_address m j) ≡ true
  address_pos j f lt = lt→ltb _ _ (omega (arith, address-ne-zero j f lt))

  Block-start : (h : Heap) (j k : ℕ) → Block h j k → j < m.cluster_count
  Block-start h j k b = omega (arith, b.positive, b.inside)

  -- `alloc_size` of a block's address is the size of the block.
  pub alloc_size-Block :
      (h : Heap) (j k : ℕ)
      → Fits m
      → Block h j k
      → alloc_size m h (cluster_to_address m j) ≡ k * 4096
  unfolding alloc_size
  alloc_size-Block h j k f b =
      let lt = Block-start h j k b in
      rw (address_pos j f lt, address_to_cluster-cluster_to_address m j f lt)
        (omega (
          arith,
          run_size_lem m h (cluster_to_address m j) (m.cluster_count - j) j 0 k
              (omega (arith, f.addresses)) b.run,
        ))

  -- What `unalloc` leaves of the table, when it is given a block's address.
  pub cluster-unalloc :
      (h : Heap) (j k i : ℕ)
      → Fits m
      → Block h j k
      → cluster m (unalloc m h (cluster_to_address m j)) i
        ≡ (if between j (j + k) i then 0 else cluster m h i)
  unfolding unalloc
  cluster-unalloc h j k i f b =
      let lt = Block-start h j k b in
      rw (address_pos j f lt, address_to_cluster-cluster_to_address m j f lt)
        (cluster-clear_run m h (cluster_to_address m j) (m.cluster_count - j) j k i (omega arith)
          b.run)

  -- A block stays a block if the table changes neither in it nor, to its address, behind it.
  pub Block-frame :
      (h h' : Heap) (j k : ℕ)
      → ((i : ℕ) → j ≤ i → i < j + k → cluster m h' i ≡ cluster m h i)
      → (j + k < m.cluster_count
          → cluster m h (j + k) ≢ cluster_to_address m j
          → cluster m h' (j + k) ≢ cluster_to_address m j)
      → Block h j k
      → Block h' j k
  Block-frame h h' j k same behind b = record {
    positive = b.positive;
    inside = b.inside;
    run = record {
      fits = b.run.fits;
      holds = λ i lo hi. same i lo hi ∙ b.run.holds i lo hi;
      ends = elim b.run.ends [
        | inl e ↦ inl e
        | inr stop ↦ elim (dec_lt (j + k) m.cluster_count) [
          | yes lt ↦ inr (behind lt stop)
          | no ge ↦ inl (omega (arith, b.inside))
        ]
      ];
    };
  }

  -- The address of a block's first cluster stands nowhere before the block, if the table is
  -- well-formed: an owner is found from the address.
  pub owner_unique :
      (h : Heap) (i j : ℕ)
      → Fits m
      → WellFormed h
      → i < m.cluster_count
      → j < m.cluster_count
      → cluster m h i ≡ cluster_to_address m j
      → (j ≤ i) × Holds m h j (i + 1) (cluster_to_address m j)
  owner_unique h i j f wf lt lt' e =
      let (o, own) =
        wf i lt (λ z. address-ne-zero j f lt' (sym e ∙ z))
          (λ z. address-ne-absent j f lt' (sym e ∙ z)) in
      let same : o ≡ j =
        address_injective o j f (omega (arith, own.before)) lt'
          (sym (own.holds i own.before (omega arith)) ∙ e) in
      (omega (arith, own.before), rw same at own.holds)
