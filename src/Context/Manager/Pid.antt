-- ===== src/Context/Manager/Pid.antt =====
-- `Context::next_pid` of kernel/arch/context.rs ends, at a process id that is free.
use redox.Prelude.{
  ℕ, zero, suc, ◌+◌, ◌≡◌, ◌≤◌, ◌<◌, ◌∙◌, refl, ap, ap₂, false, List, [], ◌∷◌, map, length,
  length-map, leb, ◌==◌, ◌||◌, if◌then◌else◌, arith,
}
use redox.Context.Files.{ContextFile, has_fd, next_fd_from}
use redox.Context.Files.Fresh.{next_fd_from_free}
use redox.Context.Manager.{Context, ContextManager, has_pid, next_pid_from, new_pid}

-- A context as an entry of a table of numbers.
entry : Context → ContextFile ℕ
entry c = record { fd = c.pid; resource = 0 }

has_pid-entry :
    (next : ℕ) (inner : List Context) → has_pid next inner ≡ has_fd next (map entry inner)
unfolding has_pid has_fd entry
has_pid-entry next [] = refl
has_pid-entry next (c ∷ inner) = ap (λ b. next == c.pid || b) (has_pid-entry next inner)

next_pid_from-entry :
    (fuel next : ℕ) (inner : List Context)
    → next_pid_from fuel next inner ≡ next_fd_from fuel next (map entry inner)
unfolding next_pid_from next_fd_from
next_pid_from-entry zero next inner = refl
next_pid_from-entry (suc fuel) next inner =
    ap₂ (λ b rest. if b then rest else next) (has_pid-entry next inner)
      (next_pid_from-entry fuel (next + 1) inner)

-- The fuel is enough: the process id that `next_pid` returns is that of no context, and not below
-- the counter; the counter is left between 1 and 65,535.
pub new_pid_lem :
    (m : ContextManager)
    → let (pid, m') = new_pid m in
      (has_pid pid m.inner ≡ false)
      × (m.next_pid ≤ pid)
      × (1 ≤ m'.next_pid)
      × (m'.next_pid < 65_536)
unfolding new_pid
new_pid_lem m =
    let files = map entry m.inner in
    let len : length files ≡ length m.inner = length-map m.inner entry in
    let pid = next_pid_from (length m.inner) m.next_pid m.inner in
    let same = next_pid_from-entry (length m.inner) m.next_pid m.inner in
    let (free, ge) =
      next_fd_from_free m.next_pid (length m.inner) m.next_pid files (omega arith) (omega arith)
        (λ k le lt. absurd (omega arith)) in
    let bounds : (1 ≤ (if leb 65_536 (pid + 1) then 1 else pid + 1))
        × ((if leb 65_536 (pid + 1) then 1 else pid + 1) < 65_536) =
      (ground arith, ground arith) in
    (
      has_pid-entry pid m.inner ∙ ap (λ n. has_fd n files) same ∙ free,
      omega arith,
      bounds.0,
      bounds.1,
    )
