-- ===== src/Context/Process.antt =====
-- The exit of a context, kernel/syscall/process.rs, with the statuses of kernel/sync/wait_map.rs: an
-- association list without a key twice, and the contexts that wait for it.
pub mod Exit
mod Tests
use redox.Prelude.{
  ℕ, Bool, true, false, ◌||◌, List, [], ◌∷◌, ◌++◌, map, Option, none, some, set, ◌==◌,
  if◌then◌else◌,
}
use redox.Prelude.Results.{Result, ok, err}
use redox.Context.Manager.{Context, ContextManager, current, unblock}

unfoldable pub lookup {ℓ} : {A : Type ℓ} → ℕ → List (ℕ × A) → Option A
lookup key [] = none
lookup key (entry ∷ statuses) =
    let rest = lookup key statuses in if entry.0 == key then some entry.1 else rest

unfoldable pub remove {ℓ} : {A : Type ℓ} → ℕ → List (ℕ × A) → List (ℕ × A)
remove key [] = []
remove key (entry ∷ statuses) =
    let rest = remove key statuses in if entry.0 == key then rest else entry ∷ rest

unfoldable pub insert {ℓ} : {A : Type ℓ} → ℕ → A → List (ℕ × A) → List (ℕ × A)
unfolding remove
insert key value statuses = (key, value) ∷ remove key statuses

-- One round of `WaitMap::receive`: the value and what is left, or that the caller waits.
unfoldable pub receive {ℓ} : {A : Type ℓ} → ℕ → List (ℕ × A) → Option (A × List (ℕ × A))
unfolding lookup remove
receive key statuses = elim (lookup key statuses) [
  | none ↦ none
  | some value ↦ some (value, remove key statuses)
]

-- The statuses of the children that the exiting context has not waited for.
pub send_all : List (ℕ × ℕ) → List (ℕ × ℕ) → List (ℕ × ℕ)
unfolding insert
send_all [] statuses = statuses
send_all (entry ∷ entries) statuses = send_all entries (insert entry.0 entry.1 statuses)

-- One round of the loop of `do_sys_exit`; `notify` empties the list of those that wait.
pub exit_one : (pid ppid status : ℕ) → List (ℕ × ℕ) → Context → Context
unfolding send_all insert
exit_one pid ppid status entries c =
    let c1 : Context =
      if c.pid == ppid
      then record c { statuses = send_all entries (insert pid status c.statuses); waiting = [] }
      else c in
    if c1.ppid == pid then record c1 { ppid = ppid } else c1

-- The contexts that the loop notifies. It does not read `blocked`, so that they are woken behind it.
pub notified : ℕ → List Context → List ℕ
notified ppid [] = []
notified ppid (c ∷ inner) = (if c.pid == ppid then c.waiting else []) ++ notified ppid inner

pub unblock_all : List ℕ → List Context → List Context
unfolding unblock
unblock_all [] inner = inner
unblock_all (p ∷ waiting) inner = unblock_all waiting (unblock (some p) inner)

pub exit_contexts : (pid ppid status : ℕ) → List (ℕ × ℕ) → List Context → List Context
unfolding exit_one notified unblock_all
exit_contexts pid ppid status entries inner =
    unblock_all (notified ppid inner) (map (exit_one pid ppid status entries) inner)

-- `do_sys_exit`, up to the loop in which it switches to other contexts.
pub do_sys_exit : ℕ → ContextManager → ContextManager
unfolding exit_contexts current
do_sys_exit status m = elim (current m) [
  | err e ↦ record m { inner = exit_contexts 0 0 status [] m.inner }
  | ok c ↦
      let inner = set m.inner m.i (record c { exited = true; statuses = [] }) in
      record m { inner = exit_contexts c.pid c.ppid status c.statuses inner }
]
