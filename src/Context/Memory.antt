-- ===== src/Context/Memory.antt =====
-- The memory of a context: ContextMemory and what uses it in kernel/arch/context.rs, and the calls of
-- kernel/syscall/memory.rs on the current context. A page table says what a page number is mapped
-- to; the processor's cache of it is left out. The calls return the address or the size that the
-- source wraps in Ok.
pub mod Place
pub mod Calls
pub mod Whole
pub mod Brk
mod Tests
use redox.Prelude.{
  ℕ, zero, suc, ◌+◌, ◌-◌, ◌*◌, ◌/◌, ◌%◌, Bool, true, false, ◌&&◌, not, List, [], ◌∷◌, ◌++◌, Option,
  none, some, ltb, leb, ◌==◌, if◌then◌else◌,
}
use redox.Prelude.Results.{Result, ok, err}
use redox.Memory.{Layout, Heap, alloc, unalloc, realloc, realloc_inplace}

pub record ContextMemory : Type 0 where
  pub physical_address : ℕ
  pub virtual_address : ℕ
  pub virtual_size : ℕ
  pub writeable : Bool
  pub allocated : Bool

-- What a page is mapped to, and who may do what with it.
pub data Mapping : Type 0 where
  user_write : ℕ → Mapping
  user_read : ℕ → Mapping
  kernel_write : ℕ → Mapping

-- The memory of the current context, its stack, the page table and the allocator.
pub record Space : Type 0 where
  pub memory : List ContextMemory
  pub stack : Option ContextMemory
  pub pages : ℕ → Mapping
  pub heap : Heap

pub set_page : ℕ → Mapping → (ℕ → Mapping) → ℕ → Mapping
set_page address to pages page = if page == address / 4096 then to else pages page

pub page_count : ContextMemory → ℕ
page_count mem = (mem.virtual_size + 4095) / 4096

-- `get_mem` and `get_mem_mut`. ENOMEM
pub get_mem : List ContextMemory → ℕ → Result ContextMemory
get_mem [] ptr = err 12
get_mem (mem ∷ memory) ptr =
    let rest = get_mem memory ptr in if mem.virtual_address == ptr then ok mem else rest

-- A change of what `get_mem_mut` finds.
pub set_mem : ContextMemory → List ContextMemory → ℕ → List ContextMemory
set_mem new_mem [] ptr = []
set_mem new_mem (mem ∷ memory) ptr =
    let rest = set_mem new_mem memory ptr in
    if mem.virtual_address == ptr then new_mem ∷ memory else mem ∷ rest

module _ (l : Layout) where
  -- The loop of `map`: `n` pages from the one with number `i` on.
  pub map_from : (n i : ℕ) → ContextMemory → (ℕ → Mapping) → ℕ → Mapping
  unfolding set_page
  map_from zero i mem pages = pages
  map_from (suc n) i mem pages =
      let from = (mem.virtual_address + i * 4096) % l.modulus in
      let to = (mem.physical_address + i * 4096) % l.modulus in
      map_from n (i + 1) mem
        (set_page from (if mem.writeable then user_write to else user_read to) pages)

  pub map : ContextMemory → (ℕ → Mapping) → ℕ → Mapping
  unfolding map_from page_count
  map mem pages = map_from (page_count mem) 0 mem pages

  pub unmap_from : (n i : ℕ) → ContextMemory → (ℕ → Mapping) → ℕ → Mapping
  unfolding set_page
  unmap_from zero i mem pages = pages
  unmap_from (suc n) i mem pages =
      let page = (mem.virtual_address + i * 4096) % l.modulus in
      unmap_from n (i + 1) mem (set_page page (kernel_write page) pages)

  pub unmap : ContextMemory → (ℕ → Mapping) → ℕ → Mapping
  unfolding unmap_from page_count
  unmap mem pages = unmap_from (page_count mem) 0 mem pages

  pub map_memory : List ContextMemory → (ℕ → Mapping) → ℕ → Mapping
  unfolding map
  map_memory [] pages = pages
  map_memory (mem ∷ memory) pages = map_memory memory (map mem pages)

  pub unmap_memory : List ContextMemory → (ℕ → Mapping) → ℕ → Mapping
  unfolding unmap
  unmap_memory [] pages = pages
  unmap_memory (mem ∷ memory) pages = unmap_memory memory (unmap mem pages)

  -- `Context::map` and `Context::unmap`
  pub map_context : Space → Space
  unfolding map_memory
  map_context s = record s {
    pages = map_memory s.memory (elim s.stack [ none ↦ s.pages | some stack ↦ map stack s.pages ]);
  }

  pub unmap_context : Space → Space
  unfolding unmap_memory
  unmap_context s =
      let pages = unmap_memory s.memory s.pages in
      record s { pages = elim s.stack [ none ↦ pages | some stack ↦ unmap stack pages ] }

  pub end_of : ContextMemory → ℕ
  unfolding page_count
  end_of mem = (mem.virtual_address + page_count mem * 4096) % l.modulus

  pub next_mem_from : ℕ → List ContextMemory → ℕ
  unfolding end_of
  next_mem_from next [] = next
  next_mem_from next (mem ∷ memory) =
      next_mem_from (if ltb next (end_of mem) then end_of mem else next) memory

  unfoldable pub next_mem : List ContextMemory → ℕ
  unfolding next_mem_from
  next_mem memory = next_mem_from 0 memory

  -- EFAULT
  unfoldable pub translate_in : ℕ → List ContextMemory → Result ℕ
  translate_in ptr [] = err 14
  translate_in ptr (mem ∷ memory) =
      let rest = translate_in ptr memory in
      if leb mem.virtual_address ptr
        && ltb ptr ((mem.virtual_address + mem.virtual_size) % l.modulus)
      then ok ((ptr - mem.virtual_address + mem.physical_address) % l.modulus)
      else rest

  unfoldable pub translate : Space → (ptr len : ℕ) → Result ℕ
  unfolding translate_in
  translate s ptr len = elim s.stack [
    | none ↦ translate_in ptr s.memory
    | some stack ↦
        if leb stack.virtual_address ptr
          && leb ((ptr + len) % l.modulus)
              ((stack.virtual_address + stack.virtual_size) % l.modulus)
        then ok ((ptr - stack.virtual_address + stack.physical_address) % l.modulus)
        else translate_in ptr s.memory
  ]

  -- `Drop for ContextMemory`
  pub drop_mem : ContextMemory → Heap → Heap
  drop_mem mem h = if mem.allocated then unalloc l h mem.physical_address else h

  -- `retain`, with the heap.
  pub clean : List ContextMemory → Heap → List ContextMemory × Heap
  unfolding drop_mem
  clean [] h = ([], h)
  clean (mem ∷ memory) h =
      let keep = ltb 0 mem.virtual_size in
      let (rest, h') = clean memory (if keep then h else drop_mem mem h) in
      (if keep then mem ∷ rest else rest, h')

  pub clean_mem : Space → Space
  unfolding clean
  clean_mem s =
      let (memory, heap) = clean s.memory s.heap in record s { memory = memory; heap = heap }

  pub do_sys_alloc : ℕ → Space → ℕ × Space
  unfolding next_mem map
  do_sys_alloc size s =
      let (physical_address, heap) = alloc l s.heap size in
      let ret = next_mem s.memory in
      let mem : ContextMemory = record {
        physical_address = physical_address;
        virtual_address = ret;
        virtual_size = size;
        writeable = true;
        allocated = true;
      } in
      if ltb 0 physical_address
      then (ret, record s { memory = s.memory ++ mem ∷ []; pages = map mem s.pages; heap = heap })
      else (0, record s { heap = heap })

  -- The block of `do_sys_realloc` afterwards, with what the allocator returned.
  pub resized : ContextMemory → (physical_address size : ℕ) → ContextMemory
  resized mem physical_address size =
      if ltb 0 physical_address
      then record mem { physical_address = physical_address; virtual_size = size }
      else record mem { virtual_size = 0 }

  pub do_sys_realloc : (ptr size : ℕ) → Space → ℕ × Space
  unfolding get_mem set_mem unmap map clean_mem resized
  do_sys_realloc ptr size s = elim (get_mem s.memory ptr) [
    | err e ↦ (0, clean_mem s)
    | ok mem ↦
        let (physical_address, heap) = realloc l s.heap mem.physical_address size in
        let mem' = resized mem physical_address size in
        (
          if ltb 0 physical_address then mem.virtual_address else 0,
          clean_mem (record s {
            memory = set_mem mem' s.memory ptr;
            pages = map mem' (unmap mem s.pages);
            heap = heap;
          }),
        )
  ]

  pub do_sys_realloc_inplace : (ptr size : ℕ) → Space → ℕ × Space
  unfolding get_mem set_mem unmap map clean_mem
  do_sys_realloc_inplace ptr size s = elim (get_mem s.memory ptr) [
    | err e ↦ (0, clean_mem s)
    | ok mem ↦
        let ret = realloc_inplace l s.heap mem.physical_address size in
        let mem' : ContextMemory = record mem { virtual_size = ret } in
        (
          ret,
          clean_mem (record s {
            memory = set_mem mem' s.memory ptr;
            pages = map mem' (unmap mem s.pages);
          }),
        )
  ]

  pub do_sys_unalloc : ℕ → Space → Space
  unfolding get_mem set_mem unmap clean_mem
  do_sys_unalloc ptr s = elim (get_mem s.memory ptr) [
    | err e ↦ clean_mem s
    | ok mem ↦ clean_mem (record s {
      memory = set_mem (record mem { virtual_size = 0 }) s.memory ptr;
      pages = unmap mem s.pages;
    })
  ]
