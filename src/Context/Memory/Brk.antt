-- ===== src/Context/Memory/Brk.antt =====
-- `do_sys_brk` of kernel/syscall/memory.rs, which resizes the last block of the current context.
use redox.Prelude.{
  ℕ, ◌+◌, ◌-◌, ◌%◌, ◌&&◌, List, [], ◌∷◌, Option, none, some, ltb, leb, if◌then◌else◌, true, false,
}
use redox.Memory.{Layout, realloc}
use redox.Context.Memory.{
  ContextMemory, Space, map_context, unmap_context, next_mem, clean_mem, resized,
}

-- `last_mut`, and a change of what it finds.
pub last : List ContextMemory → Option ContextMemory
last [] = none
last (mem ∷ []) = some mem
last (mem ∷ next ∷ memory) = last (next ∷ memory)

pub set_last : ContextMemory → List ContextMemory → List ContextMemory
set_last new_mem [] = []
set_last new_mem (mem ∷ []) = new_mem ∷ []
set_last new_mem (mem ∷ next ∷ memory) = mem ∷ set_last new_mem (next ∷ memory)

pub do_sys_brk : (l : Layout) (addr : ℕ) → Space → ℕ × Space
unfolding last set_last map_context unmap_context next_mem clean_mem resized
do_sys_brk l addr s =
    let s0 = unmap_context l s in
    let ret = next_mem l s0.memory in
    let same = map_context l (clean_mem l s0) in
    elim (last s0.memory) [
      | none ↦ (ret, same)
      | some mem ↦ elim (mem.writeable && mem.allocated && leb mem.virtual_address addr) [
        | false ↦ (ret, same)
        | true ↦
            let size = addr - mem.virtual_address in
            let (physical_address, heap) = realloc l s0.heap mem.physical_address size in
            let memory = set_last (resized l mem physical_address size) s0.memory in
            (
              if ltb 0 physical_address then (mem.virtual_address + size) % l.modulus else ret,
              map_context l (clean_mem l (record s0 { memory = memory; heap = heap })),
            )
      ]
    ]
