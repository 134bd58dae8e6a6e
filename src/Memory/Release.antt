-- ===== src/Memory/Release.antt =====
-- `unalloc` of kernel/arch/memory.rs on any pointer but the mark of an absent cluster.
use redox.Prelude.{
  ℕ, zero, suc, ◌+◌, ◌-◌, ◌≤◌, ◌<◌, ◌≡◌, refl, sym, ◌∙◌, ◌≢◌, inl, inr, false, arith, Bool-cases,
  ltb, lt→ltb, ltb→lt, if◌then◌else◌, dec_lt,
}
use redox.Memory.{Layout, Heap, cluster, cluster_to_address, address_to_cluster, unalloc, clear_run}
use redox.Memory.Search.{Fits}
use redox.Memory.Table.{between, IsRun, run-IsRun, cluster-clear_run, bytes-clear_run}
use redox.Memory.Blocks.{
  Owner, WellFormed, Block, address-ne-zero, address_injective, cluster-unalloc, Block-frame,
}

module _ (m : Layout) (h : Heap) (ptr : ℕ) where
  -- The table after a release: zero in the run of `ptr`, and as before elsewhere.
  record Cleared (h' : Heap) : Type 0 where
    start : ℕ
    length : ℕ
    run : IsRun m h ptr start (m.cluster_count - start) length
    table :
        (k : ℕ) → cluster m h' k ≡ (if between start (start + length) k then 0 else cluster m h k)

  clear_run_none : (n i : ℕ) → n ≡ 0 → clear_run m ptr n i h ≡ h
  unfolding clear_run
  clear_run_none zero i e = refl
  clear_run_none (suc n) i e = absurd (omega arith)

  clear_run-Cleared : (i : ℕ) → Cleared (clear_run m ptr (m.cluster_count - i) i h)
  clear_run-Cleared i = elim (dec_lt m.cluster_count i) [
    | yes lt ↦
        let e : m.cluster_count - i ≡ 0 = omega arith in
        let (l, run) = run-IsRun m h ptr (m.cluster_count - i) i in
        record {
          start = i;
          length = l;
          run = run;
          table = λ k. rw (clear_run_none _ i e) (ground (arith, run.fits));
        }
    | no ge ↦
        let (l, run) = run-IsRun m h ptr (m.cluster_count - i) i in
        record {
          start = i;
          length = l;
          run = run;
          table = λ k. cluster-clear_run m h ptr (m.cluster_count - i) i l k (omega arith) run;
        }
  ]

  unalloc-Cleared : 0 < ptr → Cleared (unalloc m h ptr)
  unfolding unalloc
  unalloc-Cleared pos = rw (lt→ltb 0 ptr pos) (clear_run-Cleared (address_to_cluster m ptr))

  -- The clusters of a block whose last one is not cleared are not cleared: a cleared one would
  -- hold `ptr`, and the run would reach past the block.
  Cleared-Owner :
      (h' : Heap) (i j k : ℕ) (c : Cleared h')
      → i < m.cluster_count
      → Owner m h i j
      → between c.start (c.start + c.length) i ≡ false
      → j ≤ k
      → k < i + 1
      → cluster m h' k ≡ cluster m h k
  Cleared-Owner h' i j k c lt own out lo hi =
      elim (Bool-cases (between c.start (c.start + c.length) k)) [
        | inl t ↦
            let here : cluster m h k ≡ ptr = c.run.holds k (ground arith) (ground arith) in
            let p : cluster_to_address m j ≡ ptr = sym (own.holds k lo hi) ∙ here in
            let last : cluster m h (c.start + c.length) ≡ ptr =
              own.holds (c.start + c.length) (ground arith) (ground arith) ∙ p in
            absurd (elim c.run.ends [ inl e ↦ ground arith | inr stop ↦ stop last ])
        | inr t ↦ c.table k ∙ rw t
      ]

  Cleared-WellFormed : (h' : Heap) → WellFormed m h → Cleared h' → WellFormed m h'
  Cleared-WellFormed h' wf c i lt nz nabs =
      elim (Bool-cases (between c.start (c.start + c.length) i)) [
        | inl t ↦ absurd (nz (c.table i ∙ rw t))
        | inr t ↦
            let same : cluster m h' i ≡ cluster m h i = c.table i ∙ rw t in
            let (j, own) = wf i lt (λ z. nz (same ∙ z)) (λ z. nabs (same ∙ z)) in
            (
              j,
              record {
                before = own.before;
                holds = λ k lo hi. Cleared-Owner h' i j k c lt own t lo hi ∙ own.holds k lo hi;
              },
            )
      ]

  unalloc_null : ltb 0 ptr ≡ false → unalloc m h ptr ≡ h
  unfolding unalloc
  unalloc_null t = rw t

  -- `unalloc` keeps a well-formed table well-formed, whatever pointer it is given.
  pub unalloc-WellFormed : WellFormed m h → WellFormed m (unalloc m h ptr)
  unalloc-WellFormed wf = elim (Bool-cases (ltb 0 ptr)) [
    | inl t ↦ Cleared-WellFormed (unalloc m h ptr) wf (unalloc-Cleared (ltb→lt 0 ptr t))
    | inr t ↦ rw (unalloc_null t) wf
  ]

  pub bytes-unalloc : (unalloc m h ptr).bytes ≡ h.bytes
  unfolding unalloc
  bytes-unalloc =
      let i = address_to_cluster m ptr in
      ground (arith, bytes-clear_run m ptr (m.cluster_count - i) i h)

-- Releasing one block leaves every other block as it is.
pub unalloc-other :
    (m : Layout) (h : Heap) (i l j k : ℕ)
    → Fits m
    → Block m h i l
    → Block m h j k
    → i ≢ j
    → Block m (unalloc m h (cluster_to_address m i)) j k
unalloc-other m h i l j k f released other ne =
    Block-frame m h (unalloc m h (cluster_to_address m i)) j k apart behind other
  where
    start : (i < m.cluster_count) × (j < m.cluster_count)
    start = (
      omega (arith, released.positive, released.inside),
      omega (arith, other.positive, other.inside),
    )

    apart :
        (x : ℕ)
        → j ≤ x
        → x < j + k
        → cluster m (unalloc m h (cluster_to_address m i)) x ≡ cluster m h x
    apart x lo hi = elim (Bool-cases (between i (i + l) x)) [
      | inl t ↦ absurd (
          ne (
            address_injective m i j f start.0 start.1
              (sym (released.run.holds x (ground arith) (ground arith)) ∙ other.run.holds x lo hi)))
      | inr t ↦ cluster-unalloc m h i l x f released ∙ rw t
    ]

    behind :
        j + k < m.cluster_count
        → cluster m h (j + k) ≢ cluster_to_address m j
        → cluster m (unalloc m h (cluster_to_address m i)) (j + k) ≢ cluster_to_address m j
    behind lt stop e = elim (Bool-cases (between i (i + l) (j + k))) [
      | inl t ↦
          address-ne-zero m j f start.1
            (sym e ∙ (cluster-unalloc m h i l (j + k) f released ∙ rw t))
      | inr t ↦ stop (sym (cluster-unalloc m h i l (j + k) f released ∙ rw t) ∙ e)
    ]
