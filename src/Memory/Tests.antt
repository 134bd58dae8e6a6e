-- ===== src/Memory/Tests.antt =====
-- The allocator on concrete heaps of the x86_64 layout.
use redox.Prelude.{
  ℕ, ◌+◌, ◌-◌, ◌*◌, ◌%◌, ◌≤◌, ◌<◌, ◌≡◌, refl, ◌≢◌, ◌⊎◌, inl, inr, true, List, ◌^◌, arith, [], ◌∷◌,
  ◌==◌, if◌then◌else◌,
}
use redox.Memory.{
  Layout, Heap, MemoryMapEntry, cluster, cluster_to_address, address_to_cluster, cluster_bytes,
  search, claim, alloc_where, alloc, alloc_size, unalloc, realloc, memmove, cluster_init, covers,
  x86_64, i386, absent,
}
use redox.Memory.Search.{Fits}
use redox.Memory.Empty.{x86_64-Fits, empty, empty-WellFormed, alloc_two-ne-zero}
use redox.Memory.Blocks.{WellFormed, Block}
use redox.Memory.Alloc.{Allocated, Room}
use redox.Memory.Contract.{any_start, alloc-Allocated, alloc-WellFormed, unalloc-alloc, alloc-other}
use redox.Memory.Realloc.{realloc_grow, realloc_full}
use redox.Memory.Bytes.{moved, memmove_lem}
use redox.Memory.Init.{usable, cluster-cluster_init, i386_wraps}

i386-not-Fits : ¬ Fits i386
i386-not-Fits f = omega arith

alloc_two : (alloc x86_64 empty 5000).0 ≡ cluster_to_address x86_64 0
unfolding alloc alloc_where search claim cluster cluster_bytes
alloc_two = refl

alloc-Allocated_example : Allocated x86_64 any_start empty 5000 (alloc x86_64 empty 5000)
alloc-Allocated_example = alloc-Allocated x86_64 empty 5000 x86_64-Fits (omega arith)

alloc-WellFormed_example : WellFormed x86_64 (alloc x86_64 empty 5000).1
alloc-WellFormed_example = alloc-WellFormed x86_64 empty 5000 x86_64-Fits empty-WellFormed

unalloc-alloc_example :
    let (p, h') = alloc x86_64 empty 5000 in
    cluster x86_64 (unalloc x86_64 h' p) 1 ≡ cluster x86_64 empty 1
unalloc-alloc_example =
    unalloc-alloc x86_64 empty 5000 1 x86_64-Fits empty-WellFormed (omega arith) alloc_two-ne-zero

-- Four clusters, the first at address 4096.
abbrev tiny : Layout
tiny = record { modulus = 2 ^ 32; word = 4; cluster_address = 4080; cluster_count = 4 }

tiny-Fits : Fits tiny
tiny-Fits = omega arith

-- A block of one cluster, and `rest` behind it.
abbrev one_block : ℕ → Heap
one_block rest = record { clusters = λ k. if k == 0 then 4096 else rest; bytes = λ a. a % 256 }

one_block-Block : (rest : ℕ) → rest ≢ 4096 → Block tiny (one_block rest) 0 1
unfolding cluster cluster_to_address
one_block-Block rest ne = record {
  positive = omega arith;
  inside = omega arith;
  run = record {
    fits = omega arith;
    holds = λ k lo hi. ground arith;
    ends = inr (λ e. ne (ground arith));
  };
}

one_block-WellFormed : (rest : ℕ) → (rest ≡ 0) ⊎ (rest ≡ absent) → WellFormed tiny (one_block rest)
unfolding cluster cluster_to_address
one_block-WellFormed rest h i lt nz na =
    (0, record { before = omega arith; holds = λ k lo hi. ground arith })

alloc-one_block : (alloc tiny (one_block 0) 5000).0 ≢ 0
unfolding alloc alloc_where search claim cluster cluster_bytes cluster_to_address
alloc-one_block e = omega arith

no-Room : (start length : ℕ) → ¬ Room tiny any_start (one_block absent) 5000 start length
unfolding cluster
no-Room start length room =
    ground
      (arith, room.free start (omega arith) (omega (arith, room.enough)), room.inside, room.enough)

alloc-other_example :
    let h' = (alloc tiny (one_block 0) 5000).1 in
    Block tiny h' 0 1
    × ((a : ℕ)
        → a < 1 * 4096
        → h'.bytes (cluster_to_address tiny 0 + a)
          ≡ (one_block 0).bytes (cluster_to_address tiny 0 + a))
alloc-other_example =
    alloc-other tiny (one_block 0) 5000 0 1 tiny-Fits (one_block-WellFormed 0 (inl refl))
      (omega arith) (one_block-Block 0 (omega arith))

realloc_grow_example :
    let ptr = cluster_to_address tiny 0 in
    let (ret, h') = realloc tiny (one_block 0) ptr 5000 in
    (5000 ≤ alloc_size tiny h' ret)
    × ((a : ℕ) → a < 1 * 4096 → h'.bytes (ret + a) ≡ (one_block 0).bytes (ptr + a))
    × ((i : ℕ) → 0 ≤ i → i < 0 + 1 → cluster tiny h' i ≡ 0)
    × WellFormed tiny h'
realloc_grow_example =
    realloc_grow tiny (one_block 0) 0 1 5000 tiny-Fits (one_block-WellFormed 0 (inl refl))
      (one_block-Block 0 (omega arith)) (omega arith) alloc-one_block

realloc_full_example :
    let (ret, h') = realloc tiny (one_block absent) (cluster_to_address tiny 0) 5000 in
    (ret ≡ 0) × ((i : ℕ) → 0 ≤ i → i < 0 + 1 → cluster tiny h' i ≡ 0)
realloc_full_example =
    realloc_full tiny (one_block absent) 0 1 5000 tiny-Fits (one_block-WellFormed absent (inr refl))
      (one_block-Block absent (omega arith)) (omega arith) no-Room

-- The BIOS reports the first 639 KiB as usable.
abbrev low_memory : List MemoryMapEntry
low_memory = record { base = 0; len = 0x9_FC00; class = 1 } ∷ []

cluster-cluster_init_example :
    cluster x86_64 (cluster_init x86_64 low_memory empty) 5
    ≡ (if usable low_memory (cluster_to_address x86_64 5) then 0 else absent)
cluster-cluster_init_example = cluster-cluster_init x86_64 low_memory empty 5 (omega arith)

i386_wraps_example :
    let address = (1_046_016 - 1_046_015) * 4096 in
    (cluster_to_address i386 1_046_016 ≡ address)
    × (address_to_cluster i386 address ≡ 0)
    × (cluster i386 (cluster_init i386 low_memory empty) 1_046_016
        ≡ (if usable low_memory address then 0 else absent))
i386_wraps_example = i386_wraps low_memory empty 1_046_016 (omega arith) (omega arith)

-- So the allocator owns the page at address 4096, which lies below the kernel.
low_page_usable : usable low_memory 4096 ≡ true
unfolding covers
low_page_usable = refl

-- Overlapping areas: eight bytes, one place up.
memmove_lem_example : memmove 101 100 8 (λ a. a % 256) 105 ≡ moved 101 100 8 (λ a. a % 256) 105
memmove_lem_example = memmove_lem 101 100 8 (λ a. a % 256) 105
