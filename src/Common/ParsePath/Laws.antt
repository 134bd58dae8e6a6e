-- ===== src/Common/ParsePath/Laws.antt =====
-- What `parse_path` of kernel/common/parse_path.rs returns.
use redox.Prelude.{
  ℕ, true, List, [], ◌∷◌, ◌++◌, ◌≡◌, refl, ap, ◌∙◌, arith, append-nil, append_assoc,
}
use redox.Common.ParsePath.{Str, Parser, step, run, finish, origin, start, parse_path}

-- While the flag `climb` is set, the flag `new_part` is set too: so the arm that climbs, which
-- stands behind the one for `new_part`, is never reached.
abbrev NoClimb : Parser → Type 0
NoClimb s = s.climb ≡ true → s.new_part ≡ true

step-NoClimb : (s : Parser) (c : ℕ) → NoClimb s → NoClimb (step s c)
unfolding step
step-NoClimb s c h = ground arith

abbrev rebase : List Str → Parser → Parser
rebase base s = record s { parts = base ++ s.parts }

step-rebase :
    (base : List Str) (s : Parser) (c : ℕ)
    → NoClimb s
    → step (rebase base s) c ≡ rebase base (step s c)
unfolding step
step-rebase base s c h = ground (arith, append_assoc base s.parts (s.head ∷ []))

run-rebase :
    (base : List Str) (s : Parser) (path : Str)
    → NoClimb s
    → run (rebase base s) path ≡ rebase base (run s path)
unfolding run
run-rebase base s [] h = refl
run-rebase base s (c ∷ path) h =
    ap (λ t. run t path) (step-rebase base s c h)
    ∙ run-rebase base (step s c) path (step-NoClimb s c h)

finish-append :
    (base parts : List Str) (head : Str) → finish (base ++ parts) head ≡ base ++ finish parts head
unfolding finish
finish-append base parts [] = refl
finish-append base parts (c ∷ head) = append_assoc base parts _

origin-nil : (path : Str) → origin path [] ≡ []
unfolding origin
origin-nil [] = refl
origin-nil (c ∷ path) = ground arith

start-rebase : (base : List Str) → start base ≡ rebase base (start [])
unfolding start
start-rebase base = rw append-nil

-- `parse_path` never goes up: the result is `cwd` (nothing, for a path that begins with `/`)
-- followed by parts that do not depend on `cwd`. So the arm of the source that pops a part for `..`
-- is dead.
pub parse_path-never_climbs :
    (path : Str) (cwd : List Str) → parse_path path cwd ≡ origin path cwd ++ parse_path path []
unfolding parse_path
parse_path-never_climbs path cwd =
    rw
      (
        origin-nil path,
        start-rebase (origin path cwd),
        run-rebase (origin path cwd) (start []) path (λ e. refl),
      )
      (finish-append (origin path cwd) (run (start []) path).parts (run (start []) path).head)
