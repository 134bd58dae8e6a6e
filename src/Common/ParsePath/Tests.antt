-- ===== src/Common/ParsePath/Tests.antt =====
-- `parse_path` on concrete paths.
use redox.Prelude.{[], ◌∷◌, ◌++◌, ◌≡◌, refl, arith, List}
use redox.Common.ParsePath.{Str, step, parse_path, origin}
use redox.Common.ParsePath.Laws.{parse_path-never_climbs}
use redox.Common.ParsePath.Split.{path_parts, parse_path-Plain}

-- `b/../c`
abbrev climbing : Str
climbing = b'b' ∷ b'/' ∷ b'.' ∷ b'.' ∷ b'/' ∷ b'c' ∷ []

abbrev cwd : List Str
cwd = (b'a' ∷ []) ∷ []

-- In the directory `/a` the path `b/../c` is taken for `/a/b/c`.
climbing_kept : parse_path climbing cwd ≡ (b'a' ∷ []) ∷ (b'b' ∷ []) ∷ (b'c' ∷ []) ∷ []
unfolding parse_path step
climbing_kept = refl

-- `\a/b` is one part: the escape is never left.
escape_kept : parse_path (b'\\' ∷ b'a' ∷ b'/' ∷ b'b' ∷ []) [] ≡ (b'a' ∷ b'/' ∷ b'b' ∷ []) ∷ []
unfolding parse_path step
escape_kept = refl

parse_path-never_climbs_example :
    parse_path climbing cwd ≡ origin climbing cwd ++ parse_path climbing []
parse_path-never_climbs_example = parse_path-never_climbs climbing cwd

parse_path-Plain_example : parse_path climbing cwd ≡ origin climbing cwd ++ path_parts climbing
parse_path-Plain_example = parse_path-Plain climbing cwd (omega arith)
