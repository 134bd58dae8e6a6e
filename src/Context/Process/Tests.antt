-- ===== src/Context/Process/Tests.antt =====
-- A parent that waits for its child.
use redox.Prelude.{ℕ, ◌≡◌, refl, Bool, true, false, List, [], ◌∷◌, none, some, get_elem?, arith}
use redox.Memory.Empty.{empty}
use redox.Context.Manager.{Context, ContextManager, current, get}
use redox.Context.Process.{remove, receive, lookup, do_sys_exit}
use redox.Context.Process.Exit.{has, do_sys_exit_parent}

abbrev context : (pid ppid : ℕ) → Bool → List ℕ → Context
context pid ppid blocked waiting = record {
  pid = pid;
  ppid = ppid;
  name = [];
  iopl = 0;
  blocked = blocked;
  exited = false;
  switch = 0;
  time = 0;
  vfork = none;
  wake = none;
  kernel_stack = 0;
  cwd = 0;
  memory = 0;
  files = 0;
  statuses = [];
  waiting = waiting;
}

abbrev parent : Context
parent = context 1 0 true (1 ∷ [])

abbrev child : Context
child = context 2 1 false []

abbrev family : ContextManager
family = record {
  inner = context 0 0 false [] ∷ parent ∷ child ∷ [];
  enabled = true;
  i = 2;
  next_pid = 3;
  heap = empty;
}

do_sys_exit_parent_example :
    (p' : Context) × (get_elem? (do_sys_exit 7 family).inner 1 ≡ some p')
    × (receive 2 p'.statuses ≡ some (7, remove 2 p'.statuses))
    × (has 1 (1 ∷ []) ≡ true → p'.blocked ≡ false)
unfolding current get lookup
do_sys_exit_parent_example =
    do_sys_exit_parent 7 1 family child parent refl (λ e. absurd (omega arith)) refl refl refl
