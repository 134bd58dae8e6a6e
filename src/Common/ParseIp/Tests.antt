-- ===== src/Common/ParseIp/Tests.antt =====
-- `10.0.0.1:80/`
use redox.Prelude.{ℕ, ◌≡◌, List, [], ◌∷◌, none, some, ◌==◌}
use redox.Common.ParseIp.{find, parse_port}

abbrev address : List ℕ
address = b'1' ∷ b'0' ∷ b'.' ∷ b'0' ∷ b'.' ∷ b'0' ∷ b'.' ∷ b'1' ∷ b':' ∷ b'8' ∷ b'0' ∷ b'/' ∷ []

abbrev Never : List ℕ → Type 0
Never string =
    ((i : ℕ) → find (λ c. c == b':') string ≡ some i → parse_port string ≡ some [])
    × (find (λ c. c == b':') string ≡ none → parse_port string ≡ none)
