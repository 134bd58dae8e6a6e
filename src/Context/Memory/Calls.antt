-- ===== src/Context/Memory/Calls.antt =====
-- What the memory calls of kernel/syscall/memory.rs do to the blocks of a context.
use native.Mathlib.Nat.{mod-eq_of_lt}
use mathlib.Core.Path.{subst}
use redox.Prelude.{
  ℕ, ◌+◌, ◌-◌, ◌*◌, ◌/◌, ◌%◌, ◌≡◌, ◌≢◌, ◌≤◌, ◌<◌, ◌∙◌, refl, sym, ap, true, false, ◌&&◌, List, [],
  ◌∷◌, ◌++◌, none, ltb, leb, arith, ℕ_discrete,
}
use redox.Prelude.Results.{ok}
use redox.Memory.{Layout, Heap, alloc, unalloc, cluster}
use redox.Memory.Search.{Fits}
use redox.Memory.Blocks.{WellFormed}
use redox.Memory.Contract.{unalloc-alloc}
use redox.Context.Memory.{
  ContextMemory, Space, map, unmap, next_mem, translate, translate_in, drop_mem, get_mem, set_mem,
  clean, clean_mem, do_sys_alloc, do_sys_unalloc,
}
use redox.Context.Memory.Place.{
  last_of, WellPlaced, AllBelow, AllBelow-le, next_mem_beyond, WellPlaced-append, get_mem-append,
  clean-append, translate_in-append,
}

module _ (l : Layout) where
  -- The block that `do_sys_alloc` adds where the allocator succeeds.
  unfoldable pub new_block : ℕ → Space → ContextMemory
  new_block size s = record {
    physical_address = (alloc l s.heap size).0;
    virtual_address = next_mem l s.memory;
    virtual_size = size;
    writeable = true;
    allocated = true;
  }

  alloc_success :
      (size : ℕ) (s : Space)
      → (alloc l s.heap size).0 ≢ 0
      → do_sys_alloc l size s ≡ (
        next_mem l s.memory,
        record s {
          memory = s.memory ++ new_block size s ∷ [];
          pages = map l (new_block size s) s.pages;
          heap = (alloc l s.heap size).1;
        },
      )
  unfolding do_sys_alloc new_block
  alloc_success size s ne =
      let t : ltb 0 (alloc l s.heap size).0 ≡ true = ground arith in rw (do_sys_alloc, t) refl

  new_block_fields :
      (size : ℕ) (s : Space)
      → ((new_block size s).virtual_address ≡ next_mem l s.memory)
        × ((new_block size s).virtual_size ≡ size)
        × ((new_block size s).physical_address ≡ (alloc l s.heap size).0)
        × ((new_block size s).allocated ≡ true)
  unfolding new_block
  new_block_fields size s = (refl, refl, refl, refl)

  below_new :
      (size : ℕ) (s : Space)
      → WellPlaced l.modulus s.memory
      → AllBelow (new_block size s).virtual_address s.memory
  unfolding new_block
  below_new size s w = next_mem_beyond l s.memory w

  -- Where the new block ends within the address space, `do_sys_alloc` of at least one byte,
  -- successful or not, keeps the blocks apart.
  pub do_sys_alloc-WellPlaced :
      (size : ℕ) (s : Space)
      → 0 < size
      → last_of (new_block size s) < l.modulus
      → WellPlaced l.modulus s.memory
      → WellPlaced l.modulus (do_sys_alloc l size s).1.memory
  unfolding do_sys_alloc
  do_sys_alloc-WellPlaced size s pos fits w = elim (ℕ_discrete (alloc l s.heap size).0 0) [
    | yes none_left ↦
        let f : ltb 0 (alloc l s.heap size).0 ≡ false = ground arith in rw (do_sys_alloc, f) w
    | no ne ↦
        let (va, vs, pa, al) = new_block_fields size s in
        subst (λ r. WellPlaced l.modulus r.1.memory) (sym (alloc_success size s ne))
          (WellPlaced-append l.modulus (new_block size s) s.memory w (below_new size s w)
            (omega arith) fits)
  ]

  translate_alone :
      (s : Space) (ptr len : ℕ)
      → s.stack ≡ none
      → translate l s ptr len ≡ translate_in l ptr s.memory
  unfolding translate
  translate_alone s ptr len e = rw (translate, e) refl

  translate_in-new_block :
      (size off : ℕ) (s : Space)
      → off < size
      → last_of (new_block size s) < l.modulus
      → translate_in l (next_mem l s.memory + off) (new_block size s ∷ [])
        ≡ ok ((off + (alloc l s.heap size).0) % l.modulus)
  unfolding translate_in new_block
  translate_in-new_block size off s lt fits =
      let va = next_mem l s.memory in
      let pages : size ≤ (size + 4095) / 4096 * 4096 = omega arith in
      let e : (va + size) % l.modulus ≡ va + size = mod-eq_of_lt (omega arith) in
      let t : leb va (va + off) && ltb (va + off) (va + size) ≡ true = ground arith in
      let d : va + off - va ≡ off = omega arith in rw (e, t, d) refl

  -- Where the allocator succeeds, the blocks are apart, the new one ends within the address space, and
  -- there is no stack, an address within the block that `do_sys_alloc` has added is translated to as
  -- far behind the block's physical address.
  pub translate-do_sys_alloc :
      (size off len : ℕ) (s : Space)
      → off < size
      → last_of (new_block size s) < l.modulus
      → WellPlaced l.modulus s.memory
      → (alloc l s.heap size).0 ≢ 0
      → s.stack ≡ none
      → let (ret, s') = do_sys_alloc l size s in
        translate l s' (ret + off) len ≡ ok ((off + (alloc l s.heap size).0) % l.modulus)
  translate-do_sys_alloc size off len s lt fits w ne alone =
      let mem = new_block size s in
      let ptr = next_mem l s.memory + off in
      let below =
        AllBelow-le (next_mem l s.memory) ptr s.memory (omega arith)
          (next_mem_beyond l s.memory w) in
      let s1 : Space = record s {
        memory = s.memory ++ mem ∷ [];
        pages = map l mem s.pages;
        heap = (alloc l s.heap size).1;
      } in
      subst
        (λ r. translate l r.1 (r.0 + off) len ≡ ok ((off + (alloc l s.heap size).0) % l.modulus))
        (sym (alloc_success size s ne))
        (translate_alone s1 ptr len alone
          ∙ translate_in-append l mem s.memory ptr w below
          ∙ translate_in-new_block size off s lt fits)

  unalloc_found :
      (ptr : ℕ) (s : Space) (mem : ContextMemory)
      → get_mem s.memory ptr ≡ ok mem
      → do_sys_unalloc l ptr s
        ≡ clean_mem l (record s {
          memory = set_mem (record mem { virtual_size = 0 }) s.memory ptr;
          pages = unmap l mem s.pages;
        })
  unfolding do_sys_unalloc
  unalloc_found ptr s mem e = rw (do_sys_unalloc, e) refl

  clean_mem_lem :
      (s : Space) (memory : List ContextMemory) (heap : Heap)
      → clean l s.memory s.heap ≡ (memory, heap)
      → ((clean_mem l s).memory ≡ memory) × ((clean_mem l s).heap ≡ heap)
  unfolding clean_mem
  clean_mem_lem s memory heap e = (
    ap {A = List ContextMemory × Heap} (λ r. r.0) e,
    ap {A = List ContextMemory × Heap} (λ r. r.1) e,
  )

  drop_new_block :
      (size : ℕ) (s : Space) (h : Heap)
      → drop_mem l (record (new_block size s) { virtual_size = 0 }) h
        ≡ unalloc l h (alloc l s.heap size).0
  unfolding drop_mem new_block
  drop_new_block size s h = refl

  -- In a well-formed table, where addresses do not wrap and the blocks are apart, `do_sys_unalloc` of
  -- the address of a successful `do_sys_alloc` of at least one byte gives back the blocks of before,
  -- and every cluster.
  pub do_sys_unalloc-do_sys_alloc :
      (size k : ℕ) (s : Space)
      → Fits l
      → WellFormed l s.heap
      → 0 < size
      → WellPlaced l.modulus s.memory
      → (alloc l s.heap size).0 ≢ 0
      → let (ret, s') = do_sys_alloc l size s in
        let s'' = do_sys_unalloc l ret s' in
        (s''.memory ≡ s.memory) × (cluster l s''.heap k ≡ cluster l s.heap k)
  unfolding new_block
  do_sys_unalloc-do_sys_alloc size k s f wf pos w ne =
      let mem = new_block size s in
      let freed : ContextMemory = record mem { virtual_size = 0 } in
      let ptr = next_mem l s.memory in
      let heap = (alloc l s.heap size).1 in
      let s1 : Space = record s {
        memory = s.memory ++ mem ∷ [];
        pages = map l mem s.pages;
        heap = heap;
      } in
      let s2 : Space = record s1 {
        memory = set_mem freed s1.memory ptr;
        pages = unmap l mem s1.pages;
      } in
      let (got, put) = get_mem-append mem s.memory l.modulus w (below_new size s w) in
      let cleaned : clean l s2.memory s2.heap ≡ (s.memory, unalloc l heap (alloc l s.heap size).0) =
        ap (λ memory. clean l memory heap) (put freed)
        ∙ clean-append l freed s.memory heap w refl
        ∙ ap {A = Heap} (λ h. (s.memory, h)) (drop_new_block size s heap) in
      let (memory, heap') =
        clean_mem_lem s2 s.memory (unalloc l heap (alloc l s.heap size).0) cleaned in
      subst
        (λ r.
          ((do_sys_unalloc l r.0 r.1).memory ≡ s.memory)
          × (cluster l (do_sys_unalloc l r.0 r.1).heap k ≡ cluster l s.heap k))
        (sym (alloc_success size s ne))
        (subst (λ t. (t.memory ≡ s.memory) × (cluster l t.heap k ≡ cluster l s.heap k))
          (sym (unalloc_found ptr s1 mem got))
          (
            memory,
            ap {A = Heap} (λ h. cluster l h k) heap' ∙ unalloc-alloc l s.heap size k f wf pos ne,
          ))
