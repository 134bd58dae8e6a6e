-- ===== src/Context/Manager.antt =====
-- The contexts and the scheduler of kernel/arch/context.rs. `vfork` points to a context, which is
-- given by its pid, and so do the contexts that wait for its
-- `statuses`, in `waiting`; `cwd`, `memory` and `files` say which shared object the context refers to.
-- Registers, the saved FPU state and page tables are left out.
pub mod Kept
pub mod Woken
pub mod Clean
pub mod Order
pub mod Search
pub mod Pid
mod Tests
use redox.Prelude.{
  ℕ, zero, suc, ◌+◌, ◌-◌, ◌*◌, ◌%◌, Bool, true, false, ◌&&◌, ◌||◌, not, List, [], ◌∷◌, ◌++◌, map,
  Option, none, some, length, get_elem?, set, ltb, leb, ◌==◌, if◌then◌else◌,
}
use redox.Prelude.Results.{Result, ok, err}
use redox.Common.Time.{Duration, le}
use redox.Memory.{Layout, Heap, unalloc}

pub record Context : Type 0 where
  pub pid : ℕ
  pub ppid : ℕ
  pub name : List ℕ
  pub iopl : ℕ
  pub blocked : Bool
  pub exited : Bool
  pub switch : ℕ
  pub time : ℕ
  pub vfork : Option ℕ
  pub wake : Option Duration
  pub kernel_stack : ℕ
  pub cwd : ℕ
  pub memory : ℕ
  pub files : ℕ
  pub statuses : List (ℕ × ℕ)
  pub waiting : List ℕ

-- With the heap to which a dropped context gives back its kernel stack.
pub record ContextManager : Type 0 where
  pub inner : List Context
  pub enabled : Bool
  pub i : ℕ
  pub next_pid : ℕ
  pub heap : Heap

-- `get` and `get_mut`. ESRCH
unfoldable pub get : ContextManager → ℕ → Result Context
get m i = if m.enabled then elim (get_elem? m.inner i) [ none ↦ err 3 | some c ↦ ok c ] else err 3

unfoldable pub current : ContextManager → Result Context
unfolding get
current m = get m m.i

pub push : ContextManager → Context → ContextManager
push m context = record m { inner = m.inner ++ context ∷ [] }

-- The `for` loop of `next_pid`: whether it finds a collision.
pub has_pid : ℕ → List Context → Bool
has_pid next [] = false
has_pid next (context ∷ inner) = next == context.pid || has_pid next inner

-- The `while collision` loop, on fuel.
pub next_pid_from : ℕ → ℕ → List Context → ℕ
unfolding has_pid
next_pid_from zero next inner = next
next_pid_from (suc fuel) next inner =
    let rest = next_pid_from fuel (next + 1) inner in if has_pid next inner then rest else next

-- `Context::next_pid`
pub new_pid : ContextManager → ℕ × ContextManager
unfolding next_pid_from
new_pid m =
    let ret = next_pid_from (length m.inner) m.next_pid m.inner in
    let next = ret + 1 in (ret, record m { next_pid = if leb 65_536 next then 1 else next })

-- `Vec::remove`
pub remove_at {ℓ} : {A : Type ℓ} → ℕ → List A → List A
remove_at i [] = []
remove_at zero (x ∷ xs) = xs
remove_at (suc i) (x ∷ xs) = x ∷ remove_at i xs

-- `(*vfork).blocked = false`
unfoldable pub unblock : Option ℕ → List Context → List Context
unblock none inner = inner
unblock (some p) inner = map (λ c. if c.pid == p then record c { blocked = false } else c) inner

-- `if self.i >= self.len() { self.i -= self.len(); }`
pub wrap_i : ContextManager → ContextManager
wrap_i m = if leb (length m.inner) m.i then record m { i = m.i - length m.inner } else m

-- What the registers are switched from and to, and the kernel stack that the processor is told.
pub record Switch : Type 0 where
  pub from : ℕ
  pub to : ℕ
  pub sp0 : ℕ

-- What a context that may be switched to is made into: one that is blocked has to be due.
pub due : Duration → Context → Option Context
due now next = elim next.blocked [
  | false ↦ some next
  | true ↦ elim next.wake [
    | none ↦ none
    | some wake ↦ if le wake now then some (record next { blocked = false; wake = none }) else none
  ]
]

module _ (l : Layout) where
  -- `Drop for Context`, of a context that was taken out of `inner`.
  pub drop_context : Context → ContextManager → ContextManager
  unfolding unblock
  drop_context c m = record m {
    inner = unblock c.vfork m.inner;
    heap = if ltb 0 c.kernel_stack then unalloc l m.heap c.kernel_stack else m.heap;
  }

  -- `drop(self.inner.remove(i))`
  pub remove_current : Context → ContextManager → ContextManager
  unfolding drop_context remove_at
  remove_current c m = drop_context c (record m { inner = remove_at m.i m.inner })

  -- The current context, if it is to be removed.
  pub exited_current : ContextManager → Option Context
  unfolding current
  exited_current m = elim (current m) [
    | err e ↦ none
    | ok next ↦ if next.exited then some next else none
  ]

  -- The loop of `clean`, on fuel, and the adjustment of `i` behind it.
  pub clean_from : ℕ → ContextManager → ContextManager
  unfolding wrap_i exited_current remove_current
  clean_from zero m = wrap_i (wrap_i m)
  clean_from (suc fuel) m = elim (exited_current (wrap_i m)) [
    | none ↦ wrap_i (wrap_i m)
    | some next ↦ clean_from fuel (remove_current next (wrap_i m))
  ]

  -- A round removes a context or ends the loop.
  pub clean : ContextManager → ContextManager
  unfolding clean_from
  clean m = clean_from (length m.inner) m

  -- The current context, as the search of `context_switch` leaves it, if the search stops there.
  pub stops : Duration → ContextManager → Option ContextManager
  unfolding current due
  stops now m = elim (current m) [
    | err e ↦ none
    | ok next ↦ elim (due now next) [
      | none ↦ none
      | some next' ↦ some (record m { inner = set m.inner m.i next' })
    ]
  ]

  -- `contexts.i += 1; contexts.clean();`
  pub advance : ContextManager → ContextManager
  unfolding clean
  advance m = clean (record m { i = m.i + 1 })

  -- The loop `'searching`, on fuel; `none` where that runs out. `now` is the monotonic clock.
  pub search_next : ℕ → Duration → ℕ → ContextManager → Option ContextManager
  unfolding advance stops
  search_next zero now current_i m = none
  search_next (suc fuel) now current_i m =
      let m' = advance m in
      elim (stops now m') [
        | some m'' ↦ some m''
        | none ↦ elim (m'.i == current_i) [
          | true ↦ some m'
          | false ↦ search_next fuel now current_i m'
        ]
      ]

  pub kernel_sp : Context → ℕ
  kernel_sp next =
      if ltb 0 next.kernel_stack
      then (next.kernel_stack + 1024 * 1024 - 128) % l.modulus
      else 0x20_0000 - 128

  -- `context_switch` behind the search, which has left `m`.
  pub switch_from : ℕ → ContextManager → ContextManager × Option Switch
  unfolding get current kernel_sp
  switch_from current_i m = elim (m.i == current_i) [
    | true ↦ (m, none)
    | false ↦ elim (current m) [
      | err e ↦ (m, none)
      | ok next ↦
          let m' : ContextManager = record m {
            inner = set m.inner m.i (record next { switch = next.switch + 1 });
          } in
          elim (get m current_i) [
            | err e ↦ (m', none)
            | ok c ↦ (m', some (record { from = c.pid; to = next.pid; sp0 = kernel_sp next }))
          ]
    ]
  ]

  pub context_switch : Duration → ContextManager → Option (ContextManager × Option Switch)
  unfolding search_next switch_from
  context_switch now m = elim m.enabled [
    | false ↦ some (m, none)
    | true ↦ elim (search_next (length m.inner) now m.i m) [
      | none ↦ none
      | some m' ↦ some (switch_from m.i m')
    ]
  ]
