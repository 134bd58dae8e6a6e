-- ===== src/Fs/Scheme/Tests.antt =====
-- A program that serves a scheme whose reads return 5, or fail without memory.
use redox.Prelude.{
  ℕ, ◌+◌, ◌-◌, ◌*◌, ◌%◌, ◌^◌, ◌≡◌, refl, true, List, [], ◌∷◌, some, none, replicate, arith,
}
use redox.Prelude.Results
use redox.Context.Memory.{Space, kernel_write, translate, translate_in, next_mem}
use redox.Context.Memory.Place.{WellPlaced, AllApart}
use redox.Context.Memory.Whole.{Whole, in_block}
use redox.Context.Process.{remove}
use redox.Fs.Scheme.{SchemeInner, call_inner, following_id}
use redox.Fs.Scheme.Answered.{serves, call_inner-serves, packet_of}
use redox.Fs.Scheme.Client.{push_window, buffer_window, resource_read}
use redox.Fs.Scheme.Client.Called.{behind_call, resource_read-serves}
use redox.Fs.Scheme.Client.Window.{window_address}
use redox.Memory.{x86_64}
use redox.Memory.Empty.{empty}
use redox.System.Error.{ok, err, a_value, an_error}
use redox.System.Packet.{Scheme, default_scheme, dispatch}
use redox.System.Packet.Bytes.{Words}

abbrev space : Space
space = record {
  memory =
      record {
        physical_address = 0x40_0000;
        virtual_address = 0x8000_0000;
        virtual_size = 100;
        writeable = true;
        allocated = true;
      }
      ∷ [];
  stack = none;
  pages = λ page. kernel_write (page * 4096);
  heap = empty;
}

space-WellPlaced : WellPlaced x86_64.modulus space.memory
unfolding WellPlaced AllApart
space-WellPlaced = (omega arith, omega arith, tt, tt)

-- The state of the program is the number of its reads.
abbrev counting : Scheme ℕ
counting = record default_scheme { read = λ h id buf len. (ok 5, h + 1) }

abbrev inner : SchemeInner
inner = record { name = b's' ∷ []; context = space; next_id = 2 ^ 64 - 1; todo = []; done = [] }

no_string : ℕ → ℕ → List ℕ
no_string h address = []

abbrev packets : List ℕ
packets = replicate 40 0

write-Words : Words (packet_of 4 3 0 0 inner)
write-Words = record {
  id = omega arith;
  a = omega arith;
  b = omega arith;
  c = omega arith;
  d = omega arith;
}

call_inner-serves_example :
    (call_inner (serves counting no_string packets 0) 4 3 0 0 inner
      ≡ some (
        err 9,
        record inner {
          next_id = following_id inner.next_id;
          todo = [];
          done = remove inner.next_id [];
        },
      ))
    × (following_id inner.next_id ≡ 1)
    × ¬ (following_id inner.next_id ≡ inner.next_id)
unfolding dispatch default_scheme
call_inner-serves_example =
    call_inner-serves counting no_string packets 0 0 (err 9) 4 3 0 0 inner (omega arith) refl
      write-Words (an_error (omega arith) (omega arith)) refl

window : window_address x86_64 inner ≡ 0x8000_1000
unfolding next_mem
window = refl

space-Whole : Whole x86_64.modulus space 0x8000_0010 8
space-Whole =
    in_block 0
      (record {
        physical_address = 0x40_0000;
        virtual_address = 0x8000_0000;
        virtual_size = 100;
        writeable = true;
        allocated = true;
      })
      refl (omega arith, omega arith, omega arith) space-WellPlaced tt

translate-space : translate x86_64 space 0x8000_0010 8 ≡ Results.ok 0x40_0010
unfolding translate translate_in
translate-space = refl

read-Words :
    Words
      (packet_of 3 3 ((window_address x86_64 inner + 0x40_0010 % 4096) % x86_64.modulus) 8 inner)
read-Words = record {
  id = omega arith;
  a = omega arith;
  b = omega arith;
  c = omega arith;
  d = omega arith;
}

resource_read-serves_example :
    (resource_read x86_64
        (serves counting no_string packets 0)
        (Results.ok space)
        (record { file_id = 3 })
        0x8000_0010
        8
        (some inner)
      ≡ some (ok 5, some (behind_call inner)))
    × (translate_in x86_64
          (window_address x86_64 inner + 0x40_0010 % 4096 + 7)
          (push_window x86_64 (buffer_window x86_64 0x40_0010 8) inner).context.memory
        ≡ Results.ok 0x40_0017)
    × (translate x86_64 space 0x8000_0017 1 ≡ Results.ok 0x40_0017)
unfolding dispatch
resource_read-serves_example =
    resource_read-serves x86_64 counting no_string packets 0 1 (ok 5) space (record { file_id = 3 })
      inner 0x8000_0010 8 0x40_0010 7 (omega arith) refl space-WellPlaced (omega (arith, window))
      (omega (arith, window)) read-Words space-Whole translate-space (omega arith) (omega arith)
      refl (a_value (omega arith))
