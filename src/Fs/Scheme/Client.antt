-- ===== src/Fs/Scheme/Client.antt =====
-- The resources and the scheme that other programs use, kernel/fs/scheme.rs. Buffers and names reach
-- the serving program through a block of its memory, a window, which is there during the call. What
-- the weak pointers of a scheme and its resources share is passed along.
pub mod Called
pub mod Window
use redox.Prelude.{
  ℕ, ◌+◌, ◌-◌, ◌*◌, ◌/◌, ◌%◌, Bool, true, false, List, [], ◌∷◌, ◌++◌, Option, none, some, ltb,
  if◌then◌else◌, length,
}
use redox.Prelude.Results
use redox.Context.Memory.{ContextMemory, Space, get_mem, set_mem, next_mem, translate, clean_mem}
use redox.Fs.Scheme.{SchemeInner, call}
use redox.Memory.{Layout}
use redox.System.Error.{Result, ok, err}

-- `.and(Ok(()))`, the unit as 0
and_unit : Result → Result
and_unit (ok n) = ok 0
and_unit (err e) = err e

pub record SchemeResource : Type 0 where
  pub file_id : ℕ

-- `if let Ok(mut mem) = get_mem_mut(virtual_address) { mem.virtual_size = 0; }`
pub empty_mem : ℕ → List ContextMemory → List ContextMemory
empty_mem virtual_address memory = elim (get_mem memory virtual_address) [
  | Results.ok mem ↦ set_mem (record mem { virtual_size = 0 }) memory virtual_address
  | Results.err e ↦ memory
]

module _ (l : Layout) where
  pub push_window : (ℕ → ContextMemory) → SchemeInner → SchemeInner
  push_window window s = record s {
    context = record s.context {
      memory = s.context.memory ++ window (next_mem l s.context.memory) ∷ [];
    };
  }

  -- `clean_mem` behind it drops the window.
  pub close_window : ℕ → SchemeInner → SchemeInner
  unfolding empty_mem
  close_window virtual_address s = record s {
    context =
        clean_mem l (record s.context { memory = empty_mem virtual_address s.context.memory });
  }

  -- `if let Some(scheme) = self.inner.upgrade() { .. }` behind the call
  pub close_answer : ℕ → Option (Result × Option SchemeInner) → Option (Result × Option SchemeInner)
  unfolding close_window
  close_answer virtual_address none = none
  close_answer virtual_address (some (result, none)) = some (result, none)
  close_answer virtual_address (some (result, some s)) =
      some (result, some (close_window virtual_address s))

  -- The window of a buffer at a physical address, and of a name.
  pub buffer_window : (physical_address len : ℕ) → ℕ → ContextMemory
  buffer_window physical_address len virtual_address =
      let offset = physical_address % 4096 in
      record {
        physical_address = physical_address - offset;
        virtual_address = virtual_address;
        virtual_size = (len + offset + 4095) % l.modulus / 4096 * 4096;
        writeable = true;
        allocated = false;
      }

  pub name_window : (physical_address len : ℕ) → ℕ → ContextMemory
  name_window physical_address len virtual_address = record {
    physical_address = physical_address;
    virtual_address = virtual_address;
    virtual_size = len;
    writeable = false;
    allocated = false;
  }

  module _ (serves : SchemeInner → SchemeInner) where
    -- A call with a window; its packet has the window's address. `missing` is the error where the
    -- window has no address.
    pub call_window :
        (ℕ → ContextMemory)
        → ℕ
        → (ℕ → ℕ × ℕ × ℕ)
        → ℕ
        → Option SchemeInner
        → Option (Result × Option SchemeInner)
    unfolding push_window close_answer
    call_window window number words missing inner = elim inner [
      | none ↦ some (err missing, none)
      | some s ↦
          let virtual_address = next_mem l s.context.memory in
          let pushed = push_window window s in
          let (b, c, d) = words virtual_address in
          let answer = close_answer virtual_address (call serves number b c d (some pushed)) in
          if ltb 0 virtual_address then answer else some (err missing, some pushed)
    ]

    -- `path`, `read` and `write` of `SchemeResource`, with their numbers; `current` is the caller.
    pub call_buffer :
        ℕ
        → Results.Result Space
        → SchemeResource
        → (buf len : ℕ) → Option SchemeInner
        → Option (Result × Option SchemeInner)
    unfolding call_window buffer_window
    call_buffer number current r buf len inner = elim current [
      | Results.err e ↦ some (err e, inner)
      | Results.ok space ↦ elim (translate l space buf len) [
        | Results.err e ↦ some (err 14, inner)
        | Results.ok physical_address ↦
            call_window (buffer_window physical_address len) number
              (λ va. (r.file_id, (va + physical_address % 4096) % l.modulus, len)) 9 inner
      ]
    ]

    pub resource_path :
        Results.Result Space
        → SchemeResource
        → (buf len : ℕ) → Option SchemeInner
        → Option (Result × Option SchemeInner)
    unfolding call_buffer
    resource_path current r buf len inner = call_buffer 928 current r buf len inner

    pub resource_read :
        Results.Result Space
        → SchemeResource
        → (buf len : ℕ) → Option SchemeInner
        → Option (Result × Option SchemeInner)
    unfolding call_buffer
    resource_read current r buf len inner = call_buffer 3 current r buf len inner

    pub resource_write :
        Results.Result Space
        → SchemeResource
        → (buf len : ℕ) → Option SchemeInner
        → Option (Result × Option SchemeInner)
    unfolding call_buffer
    resource_write current r buf len inner = call_buffer 4 current r buf len inner

    -- `.and(Ok(()))` on what a call returned.
    pub unit_result : Option (Result × Option SchemeInner) → Option (Result × Option SchemeInner)
    unfolding and_unit
    unit_result none = none
    unit_result (some (result, inner)) = some (and_unit result, inner)

    -- `whence` is 0, 1 or 2 for a start, the current position or an end.
    pub resource_seek :
        (whence offset : ℕ)
        → SchemeResource
        → Option SchemeInner
        → Option (Result × Option SchemeInner)
    resource_seek whence offset r inner = call serves 19 r.file_id offset whence inner

    pub resource_sync : SchemeResource → Option SchemeInner → Option (Result × Option SchemeInner)
    unfolding unit_result
    resource_sync r inner = unit_result (call serves 118 r.file_id 0 0 inner)

    pub resource_truncate :
        ℕ → SchemeResource → Option SchemeInner → Option (Result × Option SchemeInner)
    unfolding unit_result
    resource_truncate len r inner = unit_result (call serves 93 r.file_id len 0 inner)

    -- `Drop for SchemeResource`: the result is ignored.
    pub resource_drop : SchemeResource → Option SchemeInner → Option (Option SchemeInner)
    resource_drop r inner = elim (call serves 6 r.file_id 0 0 inner) [
      | none ↦ none
      | some (result, inner') ↦ some inner'
    ]

    -- `open`, `mkdir`, `rmdir` and `unlink` of `Scheme`, on a name of `len` bytes with its final
    -- zero at a physical address.
    pub scheme_open :
        (flags physical_address len : ℕ)
        → Option SchemeInner
        → Option (Results.Result SchemeResource × Option SchemeInner)
    unfolding call_window name_window
    scheme_open flags physical_address len inner =
        elim (call_window (name_window physical_address len) 5 (λ va. (va, flags, 0)) 2 inner) [
          | none ↦ none
          | some (ok file_id, inner') ↦ some (Results.ok (record { file_id = file_id }), inner')
          | some (err e, inner') ↦ some (Results.err e, inner')
        ]

    pub scheme_name_call :
        (number flags physical_address len : ℕ)
        → Option SchemeInner
        → Option (Result × Option SchemeInner)
    unfolding call_window name_window unit_result
    scheme_name_call number flags physical_address len inner =
        unit_result
          (call_window (name_window physical_address len) number (λ va. (va, flags, 0)) 2 inner)

    pub scheme_mkdir :
        (flags physical_address len : ℕ) → Option SchemeInner → Option (Result × Option SchemeInner)
    unfolding scheme_name_call
    scheme_mkdir flags physical_address len inner =
        scheme_name_call 39 flags physical_address len inner

    pub scheme_rmdir :
        (physical_address len : ℕ) → Option SchemeInner → Option (Result × Option SchemeInner)
    unfolding scheme_name_call
    scheme_rmdir physical_address len inner = scheme_name_call 84 0 physical_address len inner

    pub scheme_unlink :
        (physical_address len : ℕ) → Option SchemeInner → Option (Result × Option SchemeInner)
    unfolding scheme_name_call
    scheme_unlink physical_address len inner = scheme_name_call 10 0 physical_address len inner
