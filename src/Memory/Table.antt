-- ===== src/Memory/Table.antt =====
-- The loops over the cluster table of kernel/arch/memory.rs, each by what it leaves in the table,
-- and the conversions between a cluster's number and its address.
use native.Mathlib.Nat.{mod-eq_of_lt}
use redox.Prelude.{
  ℕ, zero, suc, ◌+◌, ◌*◌, ◌≤◌, ◌<◌, ◌≡◌, refl, sym, ◌∙◌, ◌≢◌, ◌⊎◌, inl, inr, Bool, arith,
  Bool-cases, ltb, leb, ◌==◌, ◌&&◌, if◌then◌else◌, eq_of_==, ne_of_==, ℕ_discrete, ap,
}
use redox.Memory.{
  Layout, Heap, cluster, set_cluster, set_clusters, run_size, clear_run, first_address,
  cluster_to_address, address_to_cluster,
}
use redox.Memory.Search.{Fits, Holds}

-- `lo <= k < hi`
abbrev pub between : ℕ → ℕ → ℕ → Bool
between lo hi k = leb lo k && ltb k hi

module _ (m : Layout) where
  pub cluster-set_cluster :
      (h : Heap) (number address k : ℕ)
      → number < m.cluster_count
      → cluster m (set_cluster m h number address) k
        ≡ (if number == k then address else cluster m h k)
  unfolding cluster set_cluster
  cluster-set_cluster h number address k lt = ground arith

  pub bytes-set_clusters :
      (number count address : ℕ) (h : Heap)
      → (set_clusters m number count address h).bytes ≡ h.bytes
  unfolding set_clusters set_cluster
  bytes-set_clusters number zero address h = refl
  bytes-set_clusters number (suc count) address h =
      bytes-set_clusters (number + 1) count address _ ∙ ground arith

  pub cluster-set_clusters :
      (number count address : ℕ) (h : Heap) (k : ℕ)
      → number + count ≤ m.cluster_count
      → cluster m (set_clusters m number count address h) k
        ≡ (if between number (number + count) k then address else cluster m h k)
  unfolding set_clusters
  cluster-set_clusters number zero address h k lt = ground arith
  cluster-set_clusters number (suc count) address h k lt = ground (
    arith,
    cluster-set_clusters (number + 1) count address (set_cluster m h number address) k,
    cluster-set_cluster h number address k,
  )

  -- Under `Fits` no address wraps.
  pub cluster_to_address_lem :
      (number : ℕ)
      → Fits m
      → number < m.cluster_count
      → cluster_to_address m number ≡ first_address m + number * 4096
  unfolding cluster_to_address
  cluster_to_address_lem number f lt = mod-eq_of_lt (omega (arith, f.addresses))

  pub address_to_cluster-cluster_to_address :
      (number : ℕ)
      → Fits m
      → number < m.cluster_count
      → address_to_cluster m (cluster_to_address m number) ≡ number
  unfolding address_to_cluster
  address_to_cluster-cluster_to_address number f lt =
      rw (cluster_to_address_lem number f lt) (ground arith)

  -- The clusters that hold `ptr` from `i` on are `k`, of at most `n`.
  pub record IsRun (h : Heap) (ptr i n k : ℕ) : Type 0 where
    pub fits : k ≤ n
    pub holds : Holds m h i (i + k) ptr
    pub ends : (k ≡ n) ⊎ (cluster m h (i + k) ≢ ptr)

  -- A run of `k` clusters behind one that holds `ptr` too.
  IsRun-suc :
      (h : Heap) (ptr i n k : ℕ)
      → cluster m h i ≡ ptr
      → IsRun h ptr (i + 1) n k
      → IsRun h ptr i (suc n) (suc k)
  IsRun-suc h ptr i n k here run = record {
    fits = omega (arith, run.fits);
    holds = λ j lo hi. elim (ℕ_discrete j i) [
      | yes e ↦ rw e here
      | no ne ↦ run.holds j (omega arith) (omega arith)
    ];
    ends = elim run.ends [
      | inl e ↦ inl (omega arith)
      | inr stop ↦ inr (λ e. stop (ap (cluster m h) (omega arith) ∙ e))
    ];
  }

  -- Every pointer has its run.
  pub run-IsRun : (h : Heap) (ptr n i : ℕ) → (k : ℕ) × IsRun h ptr i n k
  run-IsRun h ptr zero i =
      (0, record { fits = omega arith; holds = λ k lo hi. absurd (omega arith); ends = inl refl })
  run-IsRun h ptr (suc n) i = elim (Bool-cases (cluster m h i == ptr)) [
    | inl t ↦
        let (k, run) = run-IsRun h ptr n (i + 1) in
        (suc k, IsRun-suc h ptr i n k (eq_of_== _ _ t) run)
    | inr t ↦ (
      0,
      record {
        fits = omega arith;
        holds = λ k lo hi. absurd (omega arith);
        ends = inr (λ e. ne_of_== _ _ t (ap (cluster m h) (omega arith) ∙ e));
      },
    )
  ]

  IsRun-pred :
      (h : Heap) (ptr i n k : ℕ)
      → cluster m h i ≡ ptr
      → IsRun h ptr i (suc n) k
      → (j : ℕ) × (k ≡ suc j) × IsRun h ptr (i + 1) n j
  IsRun-pred h ptr i n zero here run = absurd (elim run.ends [
    | inl e ↦ omega arith
    | inr stop ↦ stop (ap (cluster m h) (omega arith) ∙ here)
  ])
  IsRun-pred h ptr i n (suc j) here run = (
    j,
    refl,
    record {
      fits = omega (arith, run.fits);
      holds = λ k lo hi. run.holds k (omega arith) (omega arith);
      ends = elim run.ends [
        | inl e ↦ inl (omega arith)
        | inr stop ↦ inr (λ e. stop (ap (cluster m h) (omega arith) ∙ e))
      ];
    },
  )

  IsRun-none : (h : Heap) (ptr i n k : ℕ) → cluster m h i ≢ ptr → IsRun h ptr i n k → k ≡ 0
  IsRun-none h ptr i n zero other run = refl
  IsRun-none h ptr i n (suc j) other run = absurd (other (run.holds i (omega arith) (omega arith)))

  -- `alloc_size` adds up the run.
  pub run_size_lem :
      (h : Heap) (ptr n i size k : ℕ)
      → size + n * 4096 < m.modulus
      → IsRun h ptr i n k
      → run_size m h ptr n i size ≡ size + k * 4096
  unfolding run_size
  run_size_lem h ptr zero i size k small run = omega (arith, run.fits)
  run_size_lem h ptr (suc n) i size k small run = elim (Bool-cases (cluster m h i == ptr)) [
    | inl t ↦
        let (j, e, rest) = IsRun-pred h ptr i n k (eq_of_== _ _ t) run in
        rw (t, mod-eq_of_lt {n = size + 4096} {m = m.modulus} (omega arith))
          (omega (arith, run_size_lem h ptr n (i + 1) (size + 4096) j (omega arith) rest))
    | inr t ↦ rw t (omega (arith, IsRun-none h ptr i (suc n) k (ne_of_== _ _ t) run))
  ]

  -- A run depends on the clusters from its start on only.
  pub IsRun-frame :
      (h h' : Heap) (ptr i n k : ℕ)
      → ((j : ℕ) → i ≤ j → cluster m h' j ≡ cluster m h j)
      → IsRun h ptr i n k
      → IsRun h' ptr i n k
  IsRun-frame h h' ptr i n k same run = record {
    fits = run.fits;
    holds = λ j lo hi. same j lo ∙ run.holds j lo hi;
    ends = elim run.ends [
      | inl e ↦ inl e
      | inr stop ↦ inr (λ e. stop (sym (same (i + k) (omega arith)) ∙ e))
    ];
  }

  -- `unalloc` frees the run and nothing else.
  pub cluster-clear_run :
      (h : Heap) (ptr n i k j : ℕ)
      → i + n ≤ m.cluster_count
      → IsRun h ptr i n k
      → cluster m (clear_run m ptr n i h) j ≡ (if between i (i + k) j then 0 else cluster m h j)
  unfolding clear_run
  cluster-clear_run h ptr zero i k j fits run = ground (arith, run.fits)
  cluster-clear_run h ptr (suc n) i k j fits run = elim (Bool-cases (cluster m h i == ptr)) [
    | inl t ↦
        let h' = set_cluster m h i 0 in
        let (l, e, rest) = IsRun-pred h ptr i n k (eq_of_== _ _ t) run in
        let same = λ (x : ℕ) (p : i + 1 ≤ x). below h i x fits p in
        rw t (
          ground (
            arith,
            cluster-clear_run h' ptr n (i + 1) l j (omega arith)
                (IsRun-frame h h' ptr (i + 1) n l same rest),
            cluster-set_cluster h i 0 j,
          ))
    | inr t ↦ rw t (ground (arith, IsRun-none h ptr i (suc n) k (ne_of_== _ _ t) run))
  ]
    where
      below :
          (g : Heap) (a x : ℕ)
          → a + suc n ≤ m.cluster_count
          → a + 1 ≤ x
          → cluster m (set_cluster m g a 0) x ≡ cluster m g x
      below g a x f lt = ground (arith, cluster-set_cluster g a 0 x)

  pub bytes-clear_run : (ptr n i : ℕ) (h : Heap) → (clear_run m ptr n i h).bytes ≡ h.bytes
  unfolding clear_run set_cluster
  bytes-clear_run ptr zero i h = refl
  bytes-clear_run ptr (suc n) i h =
      ground (arith, bytes-clear_run ptr n (i + 1) (set_cluster m h i 0))
