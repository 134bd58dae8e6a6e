-- ===== src/Memory/Typed.antt =====
-- `Memory<T>` of kernel/arch/memory.rs: a pointer to an allocation, for elements of `size_of` bytes.
use redox.Prelude.{ℕ, ◌*◌, ◌/◌, ◌%◌, Bool, true, false, ltb, Option, none, some, if◌then◌else◌}
use redox.Memory.{Layout, Heap, alloc, alloc_aligned, alloc_size, unalloc, realloc}

pub record Memory : Type 0 where
  pub ptr : ℕ

-- `if alloc > 0 { Some(Memory { ptr }) } else { None }`
pub wrapped : ℕ × Heap → Option Memory × Heap
wrapped (address, h) = (if ltb 0 address then some (record { ptr = address }) else none, h)

module _ (m : Layout) (size_of : ℕ) where
  pub new : Heap → ℕ → Option Memory × Heap
  unfolding wrapped
  new h count = wrapped (alloc m h (count * size_of % m.modulus))

  pub new_align : Heap → ℕ → ℕ → Option Memory × Heap
  unfolding wrapped
  new_align h count align = wrapped (alloc_aligned m h (count * size_of % m.modulus) align)

  pub renew : Memory → Heap → ℕ → Memory × Bool × Heap
  renew self h count =
      let (address, h') = realloc m h self.ptr (count * size_of % m.modulus) in
      if ltb 0 address then (record { ptr = address }, true, h') else (self, false, h')

  pub elements : Memory → Heap → ℕ
  elements self h = alloc_size m h self.ptr / size_of

module _ (m : Layout) where
  pub size : Memory → Heap → ℕ
  size self h = alloc_size m h self.ptr

  pub drop_memory : Memory → Heap → Heap
  drop_memory self h = if ltb 0 self.ptr then unalloc m h self.ptr else h

-- The pointer, and what is left to drop.
pub into_raw : Memory → ℕ × Memory
into_raw self = (self.ptr, record { ptr = 0 })
