-- ===== src/Fs/Scheme/Client/Called.antt =====
-- A read of one program that another serves, from kernel/fs/scheme.rs to crates/system/scheme.rs
-- and back.
use redox.Prelude.{ℕ, ◌+◌, ◌%◌, ◌≡◌, ◌≤◌, ◌<◌, refl, true, List, [], some, ltb, length, arith}
use redox.Prelude.Results
use redox.Context.Memory.{Space, translate, translate_in}
use redox.Context.Memory.Place.{WellPlaced}
use redox.Context.Memory.Whole.{Whole, translate-Whole}
use redox.Context.Process.{remove}
use redox.Fs.Scheme.{SchemeInner, call, call_inner, following_id}
use redox.Fs.Scheme.Answered.{serves, call_inner-serves, packet_of}
use redox.Fs.Scheme.Client.{
  SchemeResource, push_window, close_window, close_answer, buffer_window, call_window, call_buffer,
  resource_read,
}
use redox.Fs.Scheme.Client.Window.{window_address, close_lem, translate_lem}
use redox.Memory.{Layout}
use redox.System.Error.{Result, Carried}
use redox.System.Packet.{Scheme, dispatch}
use redox.System.Packet.Bytes.{Words}

-- The scheme behind a call that was answered.
abbrev pub behind_call : SchemeInner → SchemeInner
behind_call s = record s {
  next_id = following_id s.next_id;
  todo = [];
  done = remove s.next_id s.done;
}

module _ (l : Layout) (program : SchemeInner → SchemeInner) (s : SchemeInner)
    (w : WellPlaced l.modulus s.context.memory) (present : 0 < window_address l s) where
  call_lem :
      (number b c d : ℕ) (t : SchemeInner) (r : Result)
      → call_inner program number b c d t ≡ some (r, behind_call t)
      → call program number b c d (some t) ≡ some (r, some (behind_call t))
  unfolding call
  call_lem number b c d t r e = rw (call, e) refl

  -- A call with the window of a buffer, by a program that leaves the memory as it is.
  call_window_lem :
      (physical_address len number : ℕ) (words : ℕ → ℕ × ℕ × ℕ) (r : Result)
      → let pushed = push_window l (buffer_window l physical_address len) s in
        let (b, c, d) = words (window_address l s) in
        call_inner program number b c d pushed ≡ some (r, behind_call pushed)
        → call_window l program (buffer_window l physical_address len) number words 9 (some s)
          ≡ some (r, some (behind_call s))
  unfolding call_window close_answer buffer_window push_window
  call_window_lem physical_address len number words r answered =
      let va = window_address l s in
      let window = buffer_window l physical_address len in
      let pushed = push_window l window s in
      let (b, c, d) = words va in
      let t : ltb 0 va ≡ true = ground arith in
      let called = call_lem number b c d pushed r answered in
      let closed : close_window l va (behind_call pushed) ≡ behind_call s =
        close_lem l s w window refl refl (behind_call pushed) refl in
      rw (call_window, t, called, closed) refl

-- A read of a resource, whose buffer lies in one block of the caller's memory or in its stack and
-- ends within the address space, by a program in the loop that serves its scheme. The scheme's queue
-- is empty, the program's blocks of memory are apart and leave room for the window, and its read, of
-- the file at the window's address, returns a value or an error that a word can carry. Then the read
-- returns that, and leaves the memory of the program as it was, the queue empty and the answer
-- taken; and during the call each byte of the buffer is, in the window, at the physical address that
-- it has for the caller.
pub resource_read-serves {ℓ} :
    {H : Type ℓ} (l : Layout) (scheme : Scheme H) (string_at : H → ℕ → List ℕ) (packets : List ℕ)
    (h h' : H) (r : Result) (space : Space) (resource : SchemeResource) (s : SchemeInner)
    (buf len physical_address i : ℕ)
    → let va = window_address l s in
      let address = (va + physical_address % 4096) % l.modulus in
      40 ≤ length packets
      → s.todo ≡ []
      → WellPlaced l.modulus s.context.memory
      → 0 < va
      → len + 8191 + va < l.modulus
      → Words (packet_of 3 resource.file_id address len s)
      → Whole l.modulus space buf len
      → translate l space buf len ≡ Results.ok physical_address
      → physical_address + len ≤ l.modulus
      → i < len
      → scheme.read h resource.file_id address len ≡ (r, h')
      → Carried r
      → (resource_read l
            (serves scheme string_at packets h)
            (Results.ok space)
            resource
            buf
            len
            (some s)
          ≡ some (r, some (behind_call s)))
        × (translate_in l
              (va + physical_address % 4096 + i)
              (push_window l (buffer_window l physical_address len) s).context.memory
            ≡ Results.ok (physical_address + i))
        × (translate l space (buf + i) 1 ≡ Results.ok (physical_address + i))
unfolding resource_read call_buffer push_window dispatch
resource_read-serves l scheme string_at packets h h' r space resource s buf len physical_address i n
      idle w present room words whole to fits lt does carried =
    let address = (window_address l s + physical_address % 4096) % l.modulus in
    let pushed = push_window l (buffer_window l physical_address len) s in
    let program = serves scheme string_at packets h in
    let answered =
      (call_inner-serves scheme string_at packets h h' r 3 resource.file_id address len pushed n
        idle words carried does).0 in
    (
      rw (resource_read, call_buffer, to)
          (call_window_lem l program s w present physical_address len 3
            (λ va. (resource.file_id, (va + physical_address % 4096) % l.modulus, len)) r answered),
      translate_lem l s w physical_address len i lt fits room,
      translate-Whole l space buf len i physical_address whole to fits lt,
    )
