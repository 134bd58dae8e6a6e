-- ===== src/Context/Memory/Whole.antt =====
-- Buffers that lie in one block of a context's memory, in kernel/arch/context.rs.
use native.Mathlib.Nat.{mod-eq_of_lt, mod-add-mod}
use mathlib.Core.Path.{subst}
use redox.Prelude.{
  ℕ, zero, suc, ◌+◌, ◌-◌, ◌*◌, ◌/◌, ◌%◌, ◌≡◌, ◌≤◌, ◌<◌, ◌⊎◌, inl, inr, ◌∙◌, refl, sym, ap, true,
  false, ◌&&◌, List, [], ◌∷◌, Option, none, some, Option-cases, get_elem?, ltb, leb, arith,
}
use redox.Prelude.Results.{ok}
use redox.Memory.{Layout}
use redox.Context.Memory.{ContextMemory, Space, translate_in, translate}
use redox.Context.Memory.Place.{Apart, AllApart, WellPlaced}

-- A buffer lies within a block, whose end is an address.
abbrev Within : ℕ → ContextMemory → (buf len : ℕ) → Type 0
Within modulus mem buf len =
    (mem.virtual_address ≤ buf)
    × (buf + len ≤ mem.virtual_address + mem.virtual_size)
    × (mem.virtual_address + mem.virtual_size < modulus)

abbrev Outside : ℕ → Option ContextMemory → (buf len : ℕ) → Type 0
Outside modulus none buf len = Unit
Outside modulus (some stack) buf len =
    ((buf + len ≤ stack.virtual_address) ⊎ (stack.virtual_address + stack.virtual_size ≤ buf))
    × (stack.virtual_address + stack.virtual_size < modulus)

-- A buffer lies in the stack, or outside it in one block of a memory whose blocks are apart.
pub data Whole (modulus : ℕ) (s : Space) (buf len : ℕ) : Type 0 where
  in_stack :
      (stack : ContextMemory)
      → s.stack ≡ some stack
      → Within modulus stack buf len
      → Whole modulus s buf len
  in_block :
      (k : ℕ) (mem : ContextMemory)
      → get_elem? s.memory k ≡ some mem
      → Within modulus mem buf len
      → WellPlaced modulus s.memory
      → Outside modulus s.stack buf len
      → Whole modulus s buf len

AllApart-get_elem? :
    (a b : ContextMemory) (memory : List ContextMemory) (k : ℕ)
    → AllApart a memory
    → get_elem? memory k ≡ some b
    → Apart a b
unfolding AllApart
AllApart-get_elem? a b [] k all e = cc
AllApart-get_elem? a b (c ∷ memory) zero (p, all) e = let same : c ≡ b = cc in rw (sym same) p
AllApart-get_elem? a b (c ∷ memory) (suc k) (p, all) e = AllApart-get_elem? a b memory k all e

module _ (l : Layout) where
  -- An address within one of the blocks is translated in that block.
  translate_in-Within :
      (mem : ContextMemory) (memory : List ContextMemory) (k ptr : ℕ)
      → WellPlaced l.modulus memory
      → get_elem? memory k ≡ some mem
      → Within l.modulus mem ptr 1
      → translate_in l ptr memory
        ≡ ok ((ptr - mem.virtual_address + mem.physical_address) % l.modulus)
  unfolding translate_in WellPlaced
  translate_in-Within mem [] k ptr w at h = cc
  translate_in-Within mem (c ∷ memory) zero ptr w at (from, to, fits) =
      let same : c ≡ mem = cc in
      let e : (mem.virtual_address + mem.virtual_size) % l.modulus
          ≡ mem.virtual_address + mem.virtual_size =
        mod-eq_of_lt fits in
      let t : leb mem.virtual_address ptr && ltb ptr (mem.virtual_address + mem.virtual_size)
          ≡ true =
        ground arith in
      rw (same, e, t) refl
  translate_in-Within mem (c ∷ memory) (suc k) ptr (pos, below, apart, w) at (from, to, fits) =
      let size : c.virtual_size ≤ (c.virtual_size + 4095) / 4096 * 4096 = omega arith in
      let size' : mem.virtual_size ≤ (mem.virtual_size + 4095) / 4096 * 4096 = omega arith in
      let e : (c.virtual_address + c.virtual_size) % l.modulus
          ≡ c.virtual_address + c.virtual_size =
        mod-eq_of_lt (omega arith) in
      let away = AllApart-get_elem? c mem memory k apart at in
      let f : leb c.virtual_address ptr && ltb ptr (c.virtual_address + c.virtual_size) ≡ false =
        elim away [ inl before ↦ ground arith | inr behind ↦ ground arith ] in
      rw (e, f) (translate_in-Within mem memory k ptr w at (from, to, fits))

  -- A part of a buffer outside the stack is looked up in the blocks.
  translate-Outside :
      (s : Space) (ptr n : ℕ)
      → 1 ≤ n
      → ptr + n < l.modulus
      → Outside l.modulus s.stack ptr n
      → translate l s ptr n ≡ translate_in l ptr s.memory
  unfolding translate
  translate-Outside s ptr n pos end out = elim (Option-cases s.stack) [
    | inl e ↦ rw (translate, e) refl
    | inr (stack, e) ↦
        let (away, fits) = subst (λ o. Outside l.modulus o ptr n) e out in
        let wrap : (ptr + n) % l.modulus ≡ ptr + n = mod-eq_of_lt end in
        let wrap' : (stack.virtual_address + stack.virtual_size) % l.modulus
            ≡ stack.virtual_address + stack.virtual_size =
          mod-eq_of_lt fits in
        let f : leb stack.virtual_address ptr
              && leb (ptr + n) (stack.virtual_address + stack.virtual_size)
            ≡ false =
          elim away [ inl before ↦ ground arith | inr behind ↦ ground arith ] in
        rw (translate, e, wrap, wrap', f) refl
  ]

  translate-stack :
      (s : Space) (stack : ContextMemory) (ptr n : ℕ)
      → s.stack ≡ some stack
      → Within l.modulus stack ptr n
      → translate l s ptr n
        ≡ ok ((ptr - stack.virtual_address + stack.physical_address) % l.modulus)
  unfolding translate
  translate-stack s stack ptr n e (from, to, fits) =
      let wrap : (ptr + n) % l.modulus ≡ ptr + n = mod-eq_of_lt (omega arith) in
      let wrap' : (stack.virtual_address + stack.virtual_size) % l.modulus
          ≡ stack.virtual_address + stack.virtual_size =
        mod-eq_of_lt fits in
      let t : leb stack.virtual_address ptr
            && leb (ptr + n) (stack.virtual_address + stack.virtual_size)
          ≡ true =
        ground arith in
      rw (translate, e, wrap, wrap', t) refl

  block_of : (s : Space) (buf len : ℕ) → Whole l.modulus s buf len → ContextMemory
  block_of s buf len (in_stack stack e h) = stack
  block_of s buf len (in_block k mem e h w out) = mem

  block_of-below :
      (s : Space) (buf len : ℕ)
      → (w : Whole l.modulus s buf len) → (block_of s buf len w).virtual_address ≤ buf
  unfolding block_of
  block_of-below s buf len (in_stack stack e h) = h.0
  block_of-below s buf len (in_block k mem e h w out) = h.0

  Outside-part :
      (stack : Option ContextMemory) (buf len j n : ℕ)
      → j + n ≤ len
      → Outside l.modulus stack buf len
      → Outside l.modulus stack (buf + j) n
  Outside-part none buf len j n le out = tt
  Outside-part (some stack) buf len j n le (inl before, fits) = (inl (omega arith), fits)
  Outside-part (some stack) buf len j n le (inr behind, fits) = (inr (omega arith), fits)

  translate-part :
      (s : Space) (buf len j n : ℕ) (w : Whole l.modulus s buf len)
      → 1 ≤ n
      → j + n ≤ len
      → let block = block_of s buf len w in
        translate l s (buf + j) n
        ≡ ok ((buf + j - block.virtual_address + block.physical_address) % l.modulus)
  unfolding block_of
  translate-part s buf len j n (in_stack stack e (from, to, fits)) pos le =
      translate-stack s stack (buf + j) n e (omega arith, omega arith, fits)
  translate-part s buf len j n (in_block k mem e (from, to, fits) w out) pos le =
      translate-Outside s (buf + j) n pos (omega arith) (Outside-part s.stack buf len j n le out)
      ∙ translate_in-Within mem s.memory k (buf + j) w e (omega arith, omega arith, fits)

  -- The bytes of a buffer that lies in one block follow each other in physical memory, from the
  -- address on that `translate` returns for the buffer.
  pub translate-Whole :
      (s : Space) (buf len i physical_address : ℕ)
      → Whole l.modulus s buf len
      → translate l s buf len ≡ ok physical_address
      → physical_address + len ≤ l.modulus
      → i < len
      → translate l s (buf + i) 1 ≡ ok (physical_address + i)
  translate-Whole s buf len i physical_address w to fits lt =
      let block = block_of s buf len w in
      let below = block_of-below s buf len w in
      let start = buf - block.virtual_address + block.physical_address in
      let first : translate l s buf len ≡ ok (start % l.modulus) =
        ap (λ p. translate l s p len) (omega arith)
        ∙ translate-part s buf len 0 len w (omega arith) (omega arith)
        ∙ ap (λ p. ok (p % l.modulus)) (omega arith) in
      let same : start % l.modulus ≡ physical_address = cc in
      let shift : (buf + i - block.virtual_address + block.physical_address) % l.modulus
          ≡ physical_address + i =
        ap (λ p. p % l.modulus) (omega arith)
        ∙ sym (mod-add-mod start l.modulus i)
        ∙ ap (λ p. (p + i) % l.modulus) same
        ∙ mod-eq_of_lt (omega arith) in
      translate-part s buf len i 1 w (omega arith) (omega arith) ∙ ap {A = ℕ} (λ p. ok p) shift
