-- ===== src/Fs/Scheme/Client/Window.antt =====
-- The window through which a buffer of the caller reaches the serving program, kernel/fs/scheme.rs.
use native.Mathlib.Nat.{mod-eq_of_lt}
use redox.Prelude.{
  ℕ, ◌+◌, ◌-◌, ◌*◌, ◌/◌, ◌%◌, ◌≡◌, ◌≤◌, ◌<◌, refl, ap, sym, ◌∙◌, false, [], ◌∷◌, ◌++◌, arith, subst,
}
use redox.Prelude.Results
use redox.Context.Memory.{ContextMemory, Space, next_mem, translate_in, clean, clean_mem}
use redox.Context.Memory.Place.{
  WellPlaced, AllBelow, AllBelow-le, next_mem_beyond, get_mem-append, clean-append,
  translate_in-append, drop_mem-borrowed, translate_in-single, clean_mem_lem,
}
use redox.Fs.Scheme.{SchemeInner}
use redox.Fs.Scheme.Client.{push_window, empty_mem, close_window, buffer_window}
use redox.Memory.{Layout, Heap}

-- The address of a window.
abbrev pub window_address : Layout → SchemeInner → ℕ
window_address l s = next_mem l s.context.memory

module _ (l : Layout) (s : SchemeInner) (w : WellPlaced l.modulus s.context.memory) where
  module _ (window : ℕ → ContextMemory)
      (at : (window (window_address l s)).virtual_address ≡ window_address l s)
      (borrowed : (window (window_address l s)).allocated ≡ false) where
    emptied : ContextMemory
    emptied = record (window (window_address l s)) { virtual_size = 0 }

    below : AllBelow (window (window_address l s)).virtual_address s.context.memory
    below = subst (λ a. AllBelow a s.context.memory) (sym at) (next_mem_beyond l s.context.memory w)

    clean-emptied :
        clean l (s.context.memory ++ emptied ∷ []) s.context.heap
        ≡ (s.context.memory, s.context.heap)
    unfolding emptied
    clean-emptied =
        clean-append l emptied s.context.memory s.context.heap w refl
        ∙ ap {A = Heap} (λ h. (s.context.memory, h))
            (drop_mem-borrowed l emptied s.context.heap borrowed)

    empty_mem_lem :
        empty_mem (window_address l s) (s.context.memory ++ window (window_address l s) ∷ [])
        ≡ s.context.memory ++ emptied ∷ []
    unfolding empty_mem emptied
    empty_mem_lem =
        let mem = window (window_address l s) in
        let (got, put) = get_mem-append mem s.context.memory l.modulus w below in
        subst (λ a. empty_mem a (s.context.memory ++ mem ∷ []) ≡ s.context.memory ++ emptied ∷ [])
          at (rw (empty_mem, got) (put emptied))

    -- Opening a window and closing it leaves the memory as it was, with what else changed between.
    pub close_lem :
        (t : SchemeInner)
        → t.context ≡ (push_window l window s).context
        → close_window l (window_address l s) t ≡ record t { context = s.context }
    unfolding close_window push_window
    close_lem t e =
        let closed : Space → Space =
          λ c. clean_mem l (record c { memory = empty_mem (window_address l s) c.memory }) in
        let cleaned : closed (push_window l window s).context ≡ s.context =
          ap (λ m. clean_mem l (record s.context { memory = m })) empty_mem_lem
          ∙ clean_mem_lem l (record s.context { memory = s.context.memory ++ emptied ∷ [] })
              s.context.memory s.context.heap clean-emptied in
        ap {A = Space} (λ c. record t { context = c }) (ap closed e ∙ cleaned)

  -- An address within the buffer's window is that of the caller's byte.
  pub translate_lem :
      (physical_address len i : ℕ)
      → i < len
      → physical_address + len ≤ l.modulus
      → len + 8191 + window_address l s < l.modulus
      → translate_in l
          (window_address l s + physical_address % 4096 + i)
          (push_window l (buffer_window l physical_address len) s).context.memory
        ≡ Results.ok (physical_address + i)
  unfolding push_window buffer_window
  translate_lem physical_address len i lt fits room =
      let va = window_address l s in
      let mem = buffer_window l physical_address len va in
      let ptr = va + physical_address % 4096 + i in
      let below =
        AllBelow-le va ptr s.context.memory (omega arith) (next_mem_beyond l s.context.memory w) in
      let same : (len + physical_address % 4096 + 4095) % l.modulus
          ≡ len + physical_address % 4096 + 4095 =
        mod-eq_of_lt (omega arith) in
      let size : mem.virtual_size ≡ (len + physical_address % 4096 + 4095) / 4096 * 4096 =
        ap (λ n. n / 4096 * 4096) same in
      let at_byte : ptr - va + (physical_address - physical_address % 4096) ≡ physical_address + i =
        omega arith in
      let to : (ptr - va + (physical_address - physical_address % 4096)) % l.modulus
          ≡ physical_address + i =
        ap (λ n. n % l.modulus) at_byte ∙ mod-eq_of_lt (omega arith) in
      translate_in-append l mem s.context.memory ptr w below
      ∙ translate_in-single l mem ptr (omega arith) (omega arith) (omega arith)
      ∙ ap Results.ok to
