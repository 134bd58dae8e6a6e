-- ===== src/Common/ParsePath.antt =====
-- kernel/common/parse_path.rs: `parse_path` splits a path into its parts, on the directory `cwd`.
-- A string is the list of its code points.
pub mod Laws
pub mod Split
mod Tests
use redox.Prelude.{ℕ, Bool, true, false, ◌&&◌, not, List, [], ◌∷◌, ◌++◌, ◌==◌, if◌then◌else◌}

abbrev pub Str : Type 0
Str = List ℕ

pub record Parser : Type 0 where
  pub parts : List Str
  pub new_part : Bool
  pub climb : Bool
  pub escape : Bool
  pub head : Str

-- `Vec::pop`, its result dropped.
pub pop : List Str → List Str
pop [] = []
pop (p ∷ []) = []
pop (p ∷ q ∷ ps) = p ∷ pop (q ∷ ps)

-- One round of the loop: the arms of the match in the order of the source.
pub step : Parser → ℕ → Parser
unfolding pop
step s c =
    if s.escape
    then record s { head = s.head ++ c ∷ [] }
    else if c == b'\\'
    then record s { climb = false; new_part = false; escape = true }
    else if c == b'.' && s.new_part
    then record s { climb = true }
    else if c == b'.' && s.climb
    then record s { parts = pop s.parts }
    else if c == b'/' && not s.new_part
    then record s { climb = false; new_part = true; parts = s.parts ++ s.head ∷ []; head = [] }
    else if c == b'/'
    then s
    else record s { climb = false; new_part = false; head = s.head ++ c ∷ [] }

pub run : Parser → Str → Parser
run s [] = s
run s (c ∷ cs) = run (step s c) cs

-- `if !head.is_empty() { parts.push(head); }`
pub finish : List Str → Str → List Str
finish parts [] = parts
finish parts (c ∷ head) = parts ++ (c ∷ head) ∷ []

-- The parts that the loop starts from.
pub origin : Str → List Str → List Str
origin [] cwd = cwd
origin (c ∷ path) cwd = if c == b'/' then [] else cwd

pub start : List Str → Parser
start parts = record { parts = parts; new_part = true; climb = false; escape = false; head = [] }

pub parse_path : Str → List Str → List Str
unfolding run finish origin start
parse_path path cwd = let s = run (start (origin path cwd)) path in finish s.parts s.head
