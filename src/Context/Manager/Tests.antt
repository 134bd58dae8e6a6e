-- ===== src/Context/Manager/Tests.antt =====
-- A table with the idle context, one that waits, one that has exited and one that may run.
use redox.Prelude.{
  ℕ, ◌≡◌, ◌≤◌, ◌<◌, refl, Bool, true, false, List, [], ◌∷◌, Option, none, some, map,
}
use mathlib.Core.Option
use redox.Prelude.Int.{pos}
use redox.Common.Time.{Duration}
use redox.Memory.{x86_64}
use redox.Context.Manager.{Context, ContextManager, context_switch, has_pid, new_pid}
use redox.Context.Manager.Pid.{new_pid_lem}
use redox.Context.Manager.Kept.{Kept}
use redox.Context.Manager.Clean.{Idle}
use redox.Context.Manager.Search.{Switches, context_switch-Switches}

abbrev context : ℕ → Bool → Bool → Option Duration → Context
context pid blocked exited wake = record {
  pid = pid;
  ppid = 0;
  name = [];
  iopl = 0;
  blocked = blocked;
  exited = exited;
  switch = 0;
  time = 0;
  vfork = none;
  wake = wake;
  kernel_stack = 0;
  cwd = 0;
  memory = 0;
  files = 0;
  statuses = [];
  waiting = [];
}

abbrev later : Duration
later = record { secs = pos 9; nanos = pos 0 }

abbrev table : ContextManager
table = record {
  inner =
      context 0 false false none
      ∷ context 1 true false none
      ∷ context 2 false true none
      ∷ context 3 false false none
      ∷ [];
  enabled = true;
  i = 1;
  next_pid = 4;
  heap = record { clusters = λ n. 0; bytes = λ a. 0 };
}

table-Idle : Idle table.inner
table-Idle = record {
  idle = context 0 false false none;
  first = refl;
  awake = refl;
  running = refl;
}

-- The context that has exited is removed, and the one behind it runs.
switch-due :
    Option.map {B = ℕ × List ℕ}
      (λ r. (r.0.i, map {A = Context} (λ c. c.pid) r.0.inner))
      (context_switch x86_64 later table)
    ≡ some (2, 0 ∷ 1 ∷ 3 ∷ [])
unfolding context_switch
switch-due = refl

context_switch-Switches_example :
    let caller = context 1 true false none in
    (c : Context) × Kept caller c
    × Switches x86_64 later c table (context_switch x86_64 later table)
context_switch-Switches_example =
    context_switch-Switches x86_64 later table (context 1 true false none) refl table-Idle refl

-- The counter stands at the process id of a context.
abbrev behind : ContextManager
behind = record table { next_pid = 2 }

new_pid-behind : (new_pid behind).0 ≡ 4
unfolding new_pid
new_pid-behind = refl

new_pid_lem_example :
    let (pid, m') = new_pid behind in
    (has_pid pid behind.inner ≡ false)
    × (behind.next_pid ≤ pid)
    × (1 ≤ m'.next_pid)
    × (m'.next_pid < 65_536)
new_pid_lem_example = new_pid_lem behind
