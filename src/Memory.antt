-- ===== src/Memory.antt =====
-- kernel/arch/memory.rs: the cluster allocator. A heap is the table of clusters (what
-- `cluster` reads and `set_cluster` writes) beside the bytes of the clusters themselves; `usize`
-- arithmetic wraps at the layout's modulus, as the kernel is built without overflow checks.
-- The loops of memset and memmove are those of crates/system/externs.rs.
pub mod Search
pub mod Empty
pub mod Table
pub mod Bytes
pub mod Blocks
pub mod Lifecycle
pub mod Release
pub mod Contract
pub mod Realloc
pub mod Init
pub mod Accounts
pub mod Typed
pub mod Alloc
mod Tests
use redox.Prelude.{
  ℕ, zero, suc, ◌+◌, ◌-◌, ◌*◌, ◌/◌, ◌%◌, ◌^◌, min, Bool, true, false, ◌&&◌, ◌||◌, not, List, [],
  ◌∷◌, ltb, leb, ◌==◌, if◌then◌else◌,
}

-- What differs between the two architectures, and the number of clusters.
pub record Layout : Type 0 where
  pub modulus : ℕ
  pub word : ℕ
  pub cluster_address : ℕ
  pub cluster_count : ℕ

abbrev pub cluster_size : ℕ
cluster_size = 4096

abbrev pub absent : ℕ
absent = 0xFFFF_FFFF

-- PAGE_END of kernel/arch/x86/paging.rs and kernel/arch/x86_64/paging.rs.
abbrev pub i386 : Layout
i386 = record {
  modulus = 2 ^ 32;
  word = 4;
  cluster_address = 0x20_0000 + 1024 * 4 + 1024 * 1024 * 4;
  cluster_count = 1024 * 1024;
}

abbrev pub x86_64 : Layout
x86_64 = record {
  modulus = 2 ^ 64;
  word = 8;
  cluster_address = 0x20_0000 + 512 * 8 + 512 * 8 + 4 * 512 * 8 + 4 * 512 * 512 * 8;
  cluster_count = 1024 * 1024;
}

pub record Heap : Type 0 where
  pub clusters : ℕ → ℕ
  pub bytes : ℕ → ℕ

abbrev pub update : (ℕ → ℕ) → ℕ → ℕ → ℕ → ℕ
update f i v j = if i == j then v else f j

-- One entry of the BIOS memory map at 0x500.
pub record MemoryMapEntry : Type 0 where
  pub base : ℕ
  pub len : ℕ
  pub class : ℕ

-- `memset(s, c, n)`, with `i` bytes written.
pub memset : ℕ → ℕ → ℕ → (ℕ → ℕ) → ℕ → ℕ
memset zero s c bytes = bytes
memset (suc n) s c bytes = memset n (s + 1) c (update bytes s (c % 256))

-- The two loops of `memmove`.
pub copy_up : ℕ → ℕ → ℕ → (ℕ → ℕ) → ℕ → ℕ
copy_up zero dest src bytes = bytes
copy_up (suc n) dest src bytes = copy_up n (dest + 1) (src + 1) (update bytes dest (bytes src))

pub copy_down : ℕ → ℕ → ℕ → (ℕ → ℕ) → ℕ → ℕ
copy_down zero dest src bytes = bytes
copy_down (suc n) dest src bytes = copy_down n dest src (update bytes (dest + n) (bytes (src + n)))

pub memmove : ℕ → ℕ → ℕ → (ℕ → ℕ) → ℕ → ℕ
memmove dest src n bytes =
    if ltb src dest then copy_down n dest src bytes else copy_up n dest src bytes

-- The move of the contents to `ret`, if that was allocated.
pub move_contents : ℕ → ℕ → ℕ → Heap → Heap
unfolding memmove
move_contents ret ptr copy_size h =
    if ltb 0 ret then record h { bytes = memmove ret ptr copy_size h.bytes } else h

-- u64 sums: an address that is a `usize` is at most 64 bits wide.
pub covers : MemoryMapEntry → ℕ → Bool
covers entry address =
    leb entry.base address
    && leb ((address + cluster_size) % 2 ^ 64) ((entry.base + entry.len) % 2 ^ 64)

-- `if count == 0 { number = i; }`
abbrev pub run_start : ℕ → ℕ → ℕ → ℕ
run_start i number zero = i
run_start i number (suc count) = number

module _ (m : Layout) where
  pub cluster : Heap → ℕ → ℕ
  cluster h number = if ltb number m.cluster_count then h.clusters number else 0

  pub set_cluster : Heap → ℕ → ℕ → Heap
  set_cluster h number address =
      if ltb number m.cluster_count
      then record h { clusters = update h.clusters number address }
      else h

  -- CLUSTER_ADDRESS + CLUSTER_COUNT * size_of::<usize>(), a constant of the source.
  abbrev pub first_address : ℕ
  first_address = m.cluster_address + m.cluster_count * m.word

  pub address_to_cluster : ℕ → ℕ
  address_to_cluster address =
      if leb first_address address then (address - first_address) / cluster_size else 0

  pub cluster_to_address : ℕ → ℕ
  cluster_to_address number = (first_address + number * cluster_size) % m.modulus

  -- `count * CLUSTER_SIZE`
  pub cluster_bytes : ℕ → ℕ
  cluster_bytes count = (count * cluster_size) % m.modulus

  -- `for cluster in 0..CLUSTER_COUNT { set_cluster(cluster, 0xFFFFFFFF) }`, with `n` rounds left
  pub clear_clusters : ℕ → ℕ → Heap → Heap
  clear_clusters zero i h = h
  clear_clusters (suc n) i h = clear_clusters n (i + 1) (set_cluster h i absent)

  pub free_entry : MemoryMapEntry → ℕ → ℕ → Heap → Heap
  unfolding covers
  free_entry entry zero i h = h
  free_entry entry (suc n) i h =
      free_entry entry n (i + 1)
        (if covers entry (cluster_to_address i) then set_cluster h i 0 else h)

  pub free_entries : List MemoryMapEntry → Heap → Heap
  unfolding free_entry
  free_entries [] h = h
  free_entries (entry ∷ map) h =
      free_entries map
        (if ltb 0 entry.len && entry.class == 1 then free_entry entry m.cluster_count 0 h else h)

  pub cluster_init : List MemoryMapEntry → Heap → Heap
  unfolding free_entries clear_clusters
  cluster_init map h = free_entries map (clear_clusters m.cluster_count 0 h)

  -- The scan of `alloc` and `alloc_aligned`: `n` rounds left, then `i`, `number` and `count`.
  -- In `alloc` every free cluster may start a run.
  pub search : Heap → (ℕ → Bool) → ℕ → (n i number count : ℕ) → ℕ × ℕ
  search h may_start size zero i number count = (number, count)
  search h may_start size (suc n) i number count =
      let started = run_start i number count in
      let longer = search h may_start size n (i + 1) started (count + 1) in
      let restart = search h may_start size n (i + 1) number 0 in
      if cluster h i == 0 && (ltb 0 count || may_start i)
      then (if leb size (cluster_bytes (count + 1)) then (started, count + 1) else longer)
      else restart

  -- `for i in number..number + count { set_cluster(i, address) }`
  pub set_clusters : ℕ → ℕ → ℕ → Heap → Heap
  set_clusters number zero address h = h
  set_clusters number (suc count) address h =
      set_clusters (number + 1) count address (set_cluster h number address)

  pub claim : ℕ → ℕ × ℕ → Heap → ℕ × Heap
  unfolding memset set_clusters
  claim size (number, count) h =
      let address = cluster_to_address number in
      if leb size (cluster_bytes count)
      then (
        address,
        set_clusters number count address
            (record h { bytes = memset (cluster_bytes count) address 0 h.bytes }),
      )
      else (0, h)

  pub alloc_where : (ℕ → Bool) → Heap → ℕ → ℕ × Heap
  alloc_where may_start h size =
      if ltb 0 size then claim size (search h may_start size m.cluster_count 0 0 0) h else (0, h)

  pub alloc : Heap → ℕ → ℕ × Heap
  alloc = alloc_where (λ _. true)

  pub alloc_aligned : Heap → ℕ → ℕ → ℕ × Heap
  alloc_aligned h size align = alloc_where (λ i. cluster_to_address i % align == 0) h size

  -- The clusters from `i` on that hold `ptr`: how many before the first that does not.
  pub run_size : Heap → ℕ → (n i size : ℕ) → ℕ
  run_size h ptr zero i size = size
  run_size h ptr (suc n) i size =
      let rest = run_size h ptr n (i + 1) ((size + cluster_size) % m.modulus) in
      if cluster h i == ptr then rest else size

  pub alloc_size : Heap → ℕ → ℕ
  alloc_size h ptr =
      let i = address_to_cluster ptr in
      if ltb 0 ptr then run_size h ptr (m.cluster_count - i) i 0 else 0

  pub clear_run : ℕ → (n i : ℕ) → Heap → Heap
  clear_run ptr zero i h = h
  clear_run ptr (suc n) i h =
      let rest = clear_run ptr n (i + 1) (set_cluster h i 0) in
      if cluster h i == ptr then rest else h

  pub unalloc : Heap → ℕ → Heap
  unalloc h ptr =
      let i = address_to_cluster ptr in
      if ltb 0 ptr then clear_run ptr (m.cluster_count - i) i h else h

  pub realloc : Heap → ℕ → ℕ → ℕ × Heap
  unfolding move_contents
  realloc h ptr size =
      let old_size = alloc_size h ptr in
      let (ret, h') = alloc h size in
      if size == 0
      then (0, if ltb 0 ptr then unalloc h ptr else h)
      else if leb size old_size
      then (ptr, h)
      else (
        ret,
        if ltb 0 ptr then unalloc (move_contents ret ptr (min old_size size) h') ptr else h',
      )

  pub realloc_inplace : Heap → ℕ → ℕ → ℕ
  realloc_inplace h ptr size =
      let old_size = alloc_size h ptr in if leb size old_size then size else old_size

  -- `memory_used` and `memory_free` count the clusters that pass a test.
  pub count_clusters : Heap → (ℕ → Bool) → (n i ret : ℕ) → ℕ
  count_clusters h test zero i ret = ret
  count_clusters h test (suc n) i ret =
      count_clusters h test n (i + 1)
        (if test (cluster h i) then (ret + cluster_size) % m.modulus else ret)

  pub memory_used : Heap → ℕ
  unfolding count_clusters
  memory_used h = count_clusters h (λ c. not (c == 0) && not (c == absent)) m.cluster_count 0 0

  pub memory_free : Heap → ℕ
  unfolding count_clusters
  memory_free h = count_clusters h (λ c. c == 0) m.cluster_count 0 0
