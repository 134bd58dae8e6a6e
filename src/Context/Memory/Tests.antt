-- ===== src/Context/Memory/Tests.antt =====
-- A context with one block of memory, on an x86_64 heap whose clusters are free.
use redox.Prelude.{◌+◌, ◌*◌, ◌%◌, ◌≡◌, ◌<◌, refl, true, [], ◌∷◌, none, arith}
use redox.Prelude.Results.{ok}
use redox.Memory.{x86_64, alloc, cluster}
use redox.Memory.Empty.{x86_64-Fits, empty, empty-WellFormed, alloc_two-ne-zero}
use redox.Context.Memory.{Space, kernel_write, translate, next_mem, do_sys_alloc, do_sys_unalloc}
use redox.Context.Memory.Place.{WellPlaced, AllApart, last_of}
use redox.Context.Memory.Calls.{new_block, translate-do_sys_alloc, do_sys_unalloc-do_sys_alloc}

abbrev space : Space
space = record {
  memory =
      record {
        physical_address = 0x40_0000;
        virtual_address = 0x8000_0000;
        virtual_size = 100;
        writeable = true;
        allocated = true;
      }
      ∷ [];
  stack = none;
  pages = λ page. kernel_write (page * 4096);
  heap = empty;
}

space-WellPlaced : WellPlaced x86_64.modulus space.memory
unfolding WellPlaced AllApart
space-WellPlaced = (omega arith, omega arith, tt, tt)

next_mem-space : next_mem x86_64 space.memory ≡ 0x8000_1000
unfolding next_mem
next_mem-space = refl

fits : last_of (new_block x86_64 5000 space) < x86_64.modulus
unfolding new_block next_mem
fits = omega arith

translate-do_sys_alloc_example :
    let (ret, s') = do_sys_alloc x86_64 5000 space in
    translate x86_64 s' (ret + 4999) 1
    ≡ ok ((4999 + (alloc x86_64 space.heap 5000).0) % x86_64.modulus)
translate-do_sys_alloc_example =
    translate-do_sys_alloc x86_64 5000 4999 1 space (omega arith) fits space-WellPlaced
      alloc_two-ne-zero refl

do_sys_unalloc-do_sys_alloc_example :
    let (ret, s') = do_sys_alloc x86_64 5000 space in
    let s'' = do_sys_unalloc x86_64 ret s' in
    (s''.memory ≡ space.memory) × (cluster x86_64 s''.heap 1 ≡ cluster x86_64 space.heap 1)
do_sys_unalloc-do_sys_alloc_example =
    do_sys_unalloc-do_sys_alloc x86_64 5000 1 space x86_64-Fits empty-WellFormed (omega arith)
      space-WellPlaced alloc_two-ne-zero
