-- ===== src/Memory/Lifecycle.antt =====
-- Allocation and release together (kernel/arch/memory.rs): the table stays well-formed, a block is
-- as large as its request, release undoes allocation, and other blocks are left alone.
use redox.Prelude.{
  ℕ, ◌+◌, ◌*◌, ◌≤◌, ◌<◌, ◌≡◌, sym, ◌∙◌, ◌≢◌, ◌⊎◌, inl, inr, Bool, arith, Bool-cases, dec_lt, max,
}
use redox.Memory.{Layout, Heap, cluster, cluster_to_address, unalloc}
use redox.Memory.Search.{Fits}
use redox.Memory.Table.{between, cluster_to_address_lem}
use redox.Memory.Blocks.{
  Owner, WellFormed, Block, address-ne-zero, cluster-unalloc, Block-frame, owner_unique,
}
use redox.Memory.Alloc.{Served}

module _ (m : Layout) (f : Fits m) (may_start : ℕ → Bool) (h : Heap) (size : ℕ) where
  module _ (r : ℕ × Heap) (number count : ℕ) (s : Served m may_start h size r number count) where
    abbrev p : ℕ
    p = cluster_to_address m number

    -- The new table, by where a cluster lies.
    taken : (k : ℕ) → number ≤ k → k < number + count → cluster m r.1 k ≡ p
    taken k lo hi = ground (arith, s.table k, s.address)

    kept : (k : ℕ) → (k < number) ⊎ (number + count ≤ k) → cluster m r.1 k ≡ cluster m h k
    kept k out = ground (arith, s.table k)

    -- Its address is nowhere in the old table.
    fresh : 0 < size → WellFormed m h → (k : ℕ) → k < m.cluster_count → cluster m h k ≢ p
    fresh pos wf k lt e =
        let start : number < m.cluster_count = omega (arith, s.found.inside, s.found.enough) in
        let (before, holds) = owner_unique m h k number f wf lt start e in
        address-ne-zero m number f start (
          sym (holds number (omega arith) (omega arith))
          ∙ s.found.free number (omega arith) (omega (arith, s.found.enough)))

    pub Served-Block : 0 < size → WellFormed m h → Block m r.1 number count
    Served-Block pos wf = record {
      positive = omega (arith, s.found.enough);
      inside = s.found.inside;
      run = record {
        fits = omega (arith, s.found.inside);
        holds = taken;
        ends = elim (dec_lt (number + count) m.cluster_count) [
          | yes lt ↦
              inr (λ e. fresh pos wf (number + count) lt (sym (kept _ (inr (omega arith))) ∙ e))
          | no ge ↦ inl (omega (arith, s.found.inside))
        ];
      };
    }

    -- A used cluster of the old table is not among those taken.
    untaken : (k : ℕ) → cluster m h k ≢ 0 → (k < number) ⊎ (number + count ≤ k)
    untaken k nz = elim (dec_lt k number) [
      | yes lt ↦ inl lt
      | no ge ↦ elim (dec_lt k (number + count)) [
        | yes lt ↦ absurd (nz (s.found.free k (omega arith) lt))
        | no ge' ↦ inr (omega arith)
      ]
    ]

    pub Served-Owner : (i j : ℕ) → i < m.cluster_count → Owner m h i j → Owner m r.1 i j
    Served-Owner i j lt own = record {
      before = own.before;
      holds = λ k lo hi.
          let e : cluster m h k ≡ cluster_to_address m j = own.holds k lo hi in
          kept k (untaken k (λ z. address-ne-zero m j f (omega (arith, own.before)) (sym e ∙ z)))
          ∙ e;
    }

    pub Served-WellFormed : WellFormed m h → WellFormed m r.1
    Served-WellFormed wf i lt nz na = elim (Bool-cases (between number (number + count) i)) [
      | inl t ↦
          (number, record { before = ground arith; holds = λ k lo hi. taken k lo (ground arith) })
      | inr t ↦
          let same : cluster m r.1 i ≡ cluster m h i = kept i (ground arith) in
          let (j, own) = wf i lt (λ z. nz (same ∙ z)) (λ z. na (same ∙ z)) in
          (j, Served-Owner i j lt own)
    ]

    -- Blocks of the old table are blocks of the new one.
    pub Served-other : (j k : ℕ) → 0 < size → WellFormed m h → Block m h j k → Block m r.1 j k
    Served-other j k pos wf b = Block-frame m h r.1 j k (λ i lo hi. kept i (used i lo hi)) behind b
      where
        start : j < m.cluster_count
        start = omega (arith, b.positive, b.inside)

        used : (i : ℕ) → j ≤ i → i < j + k → (i < number) ⊎ (number + count ≤ i)
        used i lo hi = untaken i (λ z. address-ne-zero m j f start (sym (b.run.holds i lo hi) ∙ z))

        behind :
            j + k < m.cluster_count
            → cluster m h (j + k) ≢ cluster_to_address m j
            → cluster m r.1 (j + k) ≢ cluster_to_address m j
        behind lt ne e = elim (Bool-cases (between number (number + count) (j + k))) [
          | inl t ↦ fresh pos wf j start (
              b.run.holds j (omega arith) (omega (arith, b.positive))
              ∙ sym e
              ∙ taken (j + k) (ground arith) (ground arith))
          | inr t ↦ ne (sym (kept (j + k) (ground arith)) ∙ e)
        ]

    -- The block and the clusters taken do not meet.
    pub Served-apart :
        (j k : ℕ) → 0 < size → Block m h j k → (j + k ≤ number) ⊎ (number + count ≤ j)
    Served-apart j k pos b = elim (dec_lt number (j + k)) [
      | yes lt ↦ elim (dec_lt j (number + count)) [
        | yes lt' ↦
            let x : ℕ = max j number in
            absurd (
              address-ne-zero m j f (omega (arith, b.positive, b.inside)) (
                sym (b.run.holds x (omega arith) (omega (arith, b.positive)))
                ∙ s.found.free x (omega arith) (omega (arith, s.found.enough))))
        | no ge ↦ inr (omega arith)
      ]
      | no ge ↦ inl (omega arith)
    ]

    -- No byte of another block changes.
    pub Served-bytes :
        (j k a : ℕ)
        → 0 < size
        → Block m h j k
        → a < k * 4096
        → r.1.bytes (cluster_to_address m j + a) ≡ h.bytes (cluster_to_address m j + a)
    Served-bytes j k a pos b lt = ground (
      arith,
      s.zeroed (cluster_to_address m j + a),
      s.address,
      Served-apart j k pos b,
      b.positive,
      b.inside,
      s.found.inside,
      s.found.enough,
      cluster_to_address_lem m j f (omega (arith, b.positive, b.inside)),
      cluster_to_address_lem m number f (omega (arith, s.found.inside, s.found.enough)),
    )

    pub Served-undone :
        0 < size → WellFormed m h → (k : ℕ) → cluster m (unalloc m r.1 p) k ≡ cluster m h k
    Served-undone pos wf k = elim (Bool-cases (between number (number + count) k)) [
      | inl t ↦
          cluster-unalloc m r.1 number count k f (Served-Block pos wf)
          ∙ rw t (sym (s.found.free k (ground arith) (ground arith)))
      | inr t ↦
          cluster-unalloc m r.1 number count k f (Served-Block pos wf)
          ∙ rw t (kept k (ground arith))
    ]
