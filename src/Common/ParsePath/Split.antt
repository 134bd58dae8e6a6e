-- ===== src/Common/ParsePath/Split.antt =====
-- `parse_path` of kernel/common/parse_path.rs against a description of its result that does not
-- go through the loop.
use redox.Prelude.{
  ℕ, Bool, true, false, List, [], ◌∷◌, ◌++◌, ◌==◌, if◌then◌else◌, ◌≡◌, refl, sym, inl, inr, arith,
  append-nil, append_assoc, Bool-cases, ◌≢◌, map,
}
use redox.Common.ParsePath.{Str, Parser, step, run, finish, origin, start, parse_path}

add_first : ℕ → List Str → List Str
add_first c [] = (c ∷ []) ∷ []
add_first c (p ∷ ps) = (c ∷ p) ∷ ps

-- Split at every `/`.
pub split : Str → List Str
unfolding add_first
split [] = [] ∷ []
split (c ∷ cs) = let ps = split cs in if c == b'/' then [] ∷ ps else add_first c ps

-- Without the dots at the front.
pub drop_dots : Str → Str
drop_dots [] = []
drop_dots (c ∷ cs) = let rest = drop_dots cs in if c == b'.' then rest else c ∷ cs

pub drop_empty : List Str → List Str
drop_empty [] = []
drop_empty ([] ∷ ps) = drop_empty ps
drop_empty ((c ∷ p) ∷ ps) = (c ∷ p) ∷ drop_empty ps

abbrev pub path_parts : Str → List Str
path_parts path = drop_empty (map drop_dots (split path))

-- No character is a backslash.
abbrev pub Plain : Str → Type 0
Plain [] = Unit
Plain (c ∷ cs) = (c ≢ b'\\') × Plain cs

-- What is still to come, when `head` has been read of the current part.
after : Str → List Str → List Str
after [] ps = drop_empty (map drop_dots ps)
after (c ∷ head) [] = (c ∷ head) ∷ []
after (c ∷ head) (p ∷ ps) = (c ∷ head ++ p) ∷ drop_empty (map drop_dots ps)

abbrev between_parts : List Str → Bool → Parser
between_parts parts climb = record {
  parts = parts;
  new_part = true;
  climb = climb;
  escape = false;
  head = [];
}

abbrev in_part : List Str → ℕ → Str → Parser
in_part parts c head = record {
  parts = parts;
  new_part = false;
  climb = false;
  escape = false;
  head = c ∷ head;
}

split-cons : (path : Str) → (p : Str) × (ps : List Str) × (split path ≡ p ∷ ps)
unfolding split
split-cons [] = ([], [], refl)
split-cons (c ∷ cs) =
    let (p, ps, e) = split-cons cs in
    elim (Bool-cases (c == b'/')) [ inl t ↦ ([], split cs, rw t) | inr t ↦ (c ∷ p, ps, rw (t, e)) ]

abbrev result : Parser → List Str
result s = finish s.parts s.head

mutual
  unfolding run step finish split after drop_dots drop_empty

  run-between :
      (path : Str) (parts : List Str) (climb : Bool)
      → Plain path
      → result (run (between_parts parts climb) path) ≡ parts ++ after [] (split path)
  run-between [] parts climb plain = sym (append-nil parts)
  run-between (c ∷ cs) parts climb plain =
      let (p, ps, e) = split-cons cs in
      ground (
        arith,
        e,
        run-between cs parts true plain.1,
        run-between cs parts climb plain.1,
        run-in cs parts c [] plain.1,
      )

  run-in :
      (path : Str) (parts : List Str) (d : ℕ) (head : Str)
      → Plain path
      → result (run (in_part parts d head) path) ≡ parts ++ after (d ∷ head) (split path)
  run-in [] parts d head plain = rw (append-nil head)
  run-in (c ∷ cs) parts d head plain =
      let (p, ps, e) = split-cons cs in
      ground (
        arith,
        e,
        append-nil head,
        append_assoc parts ((d ∷ head) ∷ []) (after [] (split cs)),
        append_assoc head (c ∷ []) p,
        run-between cs (parts ++ (d ∷ head) ∷ []) false plain.1,
        run-in cs parts d (head ++ c ∷ []) plain.1,
      )

-- For a path without backslashes `parse_path` appends, to `cwd` or to nothing, the path's parts:
-- it is split at every `/`, each part loses the dots at its front, and empty parts are dropped.
pub parse_path-Plain :
    (path : Str) (cwd : List Str)
    → Plain path
    → parse_path path cwd ≡ origin path cwd ++ path_parts path
unfolding parse_path after start
parse_path-Plain path cwd plain = run-between path (origin path cwd) false plain
