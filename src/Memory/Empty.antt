-- ===== src/Memory/Empty.antt =====
-- An x86_64 heap whose clusters are free, for tests.
use redox.Prelude.{ℕ, ◌≡◌, ◌≢◌, arith}
use redox.Memory.{
  Heap, x86_64, cluster, cluster_to_address, cluster_bytes, alloc, alloc_where, search, claim,
}
use redox.Memory.Search.{Fits}
use redox.Memory.Blocks.{WellFormed}

pub x86_64-Fits : Fits x86_64
x86_64-Fits = omega arith

-- Every cluster is free.
abbrev pub empty : Heap
empty = record { clusters = λ _. 0; bytes = λ _. 7 }

pub empty-free : (k : ℕ) → cluster x86_64 empty k ≡ 0
unfolding cluster
empty-free k = ground arith

pub empty-WellFormed : WellFormed x86_64 empty
empty-WellFormed i lt nz na = absurd (nz (empty-free i))

pub alloc_two-ne-zero : (alloc x86_64 empty 5000).0 ≢ 0
unfolding alloc alloc_where search claim cluster cluster_bytes cluster_to_address
alloc_two-ne-zero e = omega arith
