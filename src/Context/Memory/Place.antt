-- ===== src/Context/Memory/Place.antt =====
-- Where the blocks of a context's memory lie, in kernel/arch/context.rs.
use native.Mathlib.Nat.{mod-eq_of_lt}
use mathlib.Core.Path.{subst}
use redox.Prelude.{
  ℕ, ◌+◌, ◌-◌, ◌*◌, ◌/◌, ◌%◌, ◌≡◌, ◌≤◌, ◌<◌, ◌⊎◌, inl, inr, ◌∙◌, refl, sym, ap, true, false,
  Bool-cases, ◌&&◌, List, [], ◌∷◌, ◌++◌, ltb, leb, ◌==◌, if◌then◌else◌, ltb→lt, ltb-false, arith,
}
use redox.Prelude.Results.{ok}
use redox.Memory.{Layout, Heap}
use redox.Context.Memory.{
  ContextMemory, page_count, get_mem, set_mem, end_of, next_mem_from, next_mem, translate_in, clean,
  drop_mem, clean_mem, Space,
}

abbrev pub last_of : ContextMemory → ℕ
last_of mem = mem.virtual_address + (mem.virtual_size + 4095) / 4096 * 4096

abbrev pub Apart : ContextMemory → ContextMemory → Type 0
Apart a b = last_of a ≤ b.virtual_address ⊎ last_of b ≤ a.virtual_address

unfoldable pub AllApart : ContextMemory → List ContextMemory → Type 0
AllApart a [] = Unit
AllApart a (b ∷ memory) = Apart a b × AllApart a memory

-- The blocks are not empty, end within the address space, and no two share a page.
unfoldable pub WellPlaced : ℕ → List ContextMemory → Type 0
WellPlaced modulus [] = Unit
WellPlaced modulus (mem ∷ memory) =
    (0 < mem.virtual_size)
    × (last_of mem < modulus)
    × AllApart mem memory
    × WellPlaced modulus memory

-- Every block ends at or below an address.
pub AllBelow : ℕ → List ContextMemory → Type 0
AllBelow top [] = Unit
AllBelow top (mem ∷ memory) = (last_of mem ≤ top) × AllBelow top memory

pub AllBelow-le :
    (n m : ℕ) (memory : List ContextMemory) → n ≤ m → AllBelow n memory → AllBelow m memory
unfolding AllBelow
AllBelow-le n m [] le h = tt
AllBelow-le n m (mem ∷ memory) le (h, below) = (omega arith, AllBelow-le n m memory le below)

module _ (l : Layout) where
  end_of_lem : (mem : ContextMemory) → last_of mem < l.modulus → end_of l mem ≡ last_of mem
  unfolding end_of page_count
  end_of_lem mem lt = mod-eq_of_lt lt

  next_mem_from_beyond :
      (next : ℕ) (memory : List ContextMemory)
      → WellPlaced l.modulus memory
      → next ≤ next_mem_from l next memory × AllBelow (next_mem_from l next memory) memory
  unfolding next_mem_from WellPlaced AllBelow
  next_mem_from_beyond next [] w = (omega arith, tt)
  next_mem_from_beyond next (mem ∷ memory) (pos, fits, apart, w) =
      let Q : ℕ → Type 0 = λ n. next ≤ n × (last_of mem ≤ n × AllBelow n memory) in
      let step : ℕ → ℕ = λ e. next_mem_from l (if ltb next e then e else next) memory in
      let e = end_of_lem mem fits in
      elim (Bool-cases (ltb next (last_of mem))) [
        | inl t ↦
            let (le, below) = next_mem_from_beyond (last_of mem) memory w in
            let lt = ltb→lt next (last_of mem) t in
            let same =
              ap step e ∙ ap (λ b. next_mem_from l (if b then last_of mem else next) memory) t in
            subst Q (sym same) (omega arith, (le, below))
        | inr f ↦
            let (le, below) = next_mem_from_beyond next memory w in
            let ge = ltb-false next (last_of mem) f in
            let same =
              ap step e ∙ ap (λ b. next_mem_from l (if b then last_of mem else next) memory) f in
            subst Q (sym same) (le, (omega arith, below))
      ]

  -- No block reaches beyond the address that `next_mem` returns.
  pub next_mem_beyond :
      (memory : List ContextMemory)
      → WellPlaced l.modulus memory
      → AllBelow (next_mem l memory) memory
  unfolding next_mem
  next_mem_beyond memory w = (next_mem_from_beyond 0 memory w).1

AllApart-append :
    (a b : ContextMemory) (memory : List ContextMemory)
    → AllApart a memory
    → Apart a b
    → AllApart a (memory ++ b ∷ [])
unfolding AllApart
AllApart-append a b [] all p = (p, tt)
AllApart-append a b (c ∷ memory) (q, all) p = (q, AllApart-append a b memory all p)

-- A block behind all others is added.
pub WellPlaced-append :
    (modulus : ℕ) (b : ContextMemory) (memory : List ContextMemory)
    → WellPlaced modulus memory
    → AllBelow b.virtual_address memory
    → 0 < b.virtual_size
    → last_of b < modulus
    → WellPlaced modulus (memory ++ b ∷ [])
unfolding WellPlaced AllBelow AllApart
WellPlaced-append modulus b [] w below pos fits = (pos, fits, tt, tt)
WellPlaced-append modulus b (mem ∷ memory) (pos', fits', apart, w) (le, below) pos fits = (
  pos',
  fits',
  AllApart-append mem b memory apart (inl le),
  WellPlaced-append modulus b memory w below pos fits,
)

-- A block behind all others is the only one at its address.
pub get_mem-append :
    (b : ContextMemory) (memory : List ContextMemory) (modulus : ℕ)
    → WellPlaced modulus memory
    → AllBelow b.virtual_address memory
    → (get_mem (memory ++ b ∷ []) b.virtual_address ≡ ok b)
      × ((b' : ContextMemory) → set_mem b' (memory ++ b ∷ []) b.virtual_address ≡ memory ++ b' ∷ [])
unfolding get_mem set_mem WellPlaced AllBelow
get_mem-append b [] modulus w below =
    let t : (b.virtual_address == b.virtual_address) ≡ true = ground arith in
    (rw t refl, λ b'. rw t refl)
get_mem-append b (mem ∷ memory) modulus (pos, fits, apart, w) (le, below) =
    let f : (mem.virtual_address == b.virtual_address) ≡ false = ground arith in
    let (got, put) = get_mem-append b memory modulus w below in
    (rw f got, λ b'. rw f (ap (λ t. mem ∷ t) (put b')))

module _ (l : Layout) where
  -- `clean` takes an empty block behind the others, and only that.
  pub clean-append :
      (b : ContextMemory) (memory : List ContextMemory) (h : Heap)
      → WellPlaced l.modulus memory
      → b.virtual_size ≡ 0
      → clean l (memory ++ b ∷ []) h ≡ (memory, drop_mem l b h)
  unfolding clean WellPlaced
  clean-append b [] h w e =
      let f : ltb 0 b.virtual_size ≡ false = ground arith in rw (clean, f) refl
  clean-append b (mem ∷ memory) h (pos, fits, apart, w) e =
      let t : ltb 0 mem.virtual_size ≡ true = ground arith in
      rw (clean, t)
        (ap {A = List ContextMemory × Heap} (λ r. (mem ∷ r.0, r.1)) (clean-append b memory h w e))

  -- An address behind all blocks is looked up in the block behind them.
  pub translate_in-append :
      (b : ContextMemory) (memory : List ContextMemory) (ptr : ℕ)
      → WellPlaced l.modulus memory
      → AllBelow ptr memory
      → translate_in l ptr (memory ++ b ∷ []) ≡ translate_in l ptr (b ∷ [])
  unfolding translate_in WellPlaced AllBelow
  translate_in-append b [] ptr w below = refl
  translate_in-append b (mem ∷ memory) ptr (pos, fits, apart, w) (le, below) =
      let size : mem.virtual_size ≤ (mem.virtual_size + 4095) / 4096 * 4096 = omega arith in
      let e : (mem.virtual_address + mem.virtual_size) % l.modulus
          ≡ mem.virtual_address + mem.virtual_size =
        mod-eq_of_lt (omega arith) in
      let f : leb mem.virtual_address ptr && ltb ptr (mem.virtual_address + mem.virtual_size)
          ≡ false =
        ground arith in
      rw (e, f) (translate_in-append b memory ptr w below)

  pub drop_mem-borrowed : (b : ContextMemory) (h : Heap) → b.allocated ≡ false → drop_mem l b h ≡ h
  unfolding drop_mem
  drop_mem-borrowed b h e = rw (drop_mem, e) refl

  -- `clean_mem` keeps all but the blocks and the heap.
  pub clean_mem_lem :
      (s : Space) (memory : List ContextMemory) (heap : Heap)
      → clean l s.memory s.heap ≡ (memory, heap)
      → clean_mem l s ≡ record s { memory = memory; heap = heap }
  unfolding clean_mem
  clean_mem_lem s memory heap e =
      ap {A = List ContextMemory × Heap} (λ r. record s { memory = r.0; heap = r.1 }) e

  -- An address within a block that does not wrap is translated within it.
  pub translate_in-single :
      (b : ContextMemory) (ptr : ℕ)
      → b.virtual_address ≤ ptr
      → ptr < b.virtual_address + b.virtual_size
      → b.virtual_address + b.virtual_size < l.modulus
      → translate_in l ptr (b ∷ [])
        ≡ ok ((ptr - b.virtual_address + b.physical_address) % l.modulus)
  unfolding translate_in
  translate_in-single b ptr le lt fits =
      let e : (b.virtual_address + b.virtual_size) % l.modulus
          ≡ b.virtual_address + b.virtual_size =
        mod-eq_of_lt fits in
      let t : leb b.virtual_address ptr && ltb ptr (b.virtual_address + b.virtual_size) ≡ true =
        ground arith in
      rw (translate_in, e, t) refl
