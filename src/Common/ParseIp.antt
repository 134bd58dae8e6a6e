-- ===== src/Common/ParseIp.antt =====
-- kernel/common/parse_ip.rs: the port and the host of an address. A string is the list of its bytes
-- (a character that is not ASCII is no digit and none of the separators).
pub mod Laws
mod Tests
use redox.Prelude.{
  ℕ, ◌+◌, ◌≤◌, Bool, ◌&&◌, ◌||◌, List, [], ◌∷◌, Option, none, some, leb, ◌==◌, if◌then◌else◌,
}
use redox.Common.Slice.{get_slice}

-- `str::find`
unfoldable pub find : (ℕ → Bool) → List ℕ → Option ℕ
find p [] = none
find p (c ∷ cs) = if p c then some 0 else elim (find p cs) [ none ↦ none | some i ↦ some (i + 1) ]

-- The loop that counts the digits at the front of the string.
pub count_digits : List ℕ → ℕ → ℕ
count_digits [] b = b
count_digits (c ∷ cs) b =
    let rest = count_digits cs (b + 1) in if leb b'0' c && leb c b'9' then rest else b

-- `find(..).map(|a| a + 1)`
pub behind : Option ℕ → Option ℕ
behind none = none
behind (some a) = some (a + 1)

pub parse_port : List ℕ → Option (List ℕ)
unfolding find behind count_digits
parse_port string =
    get_slice string (some (behind (find (λ c. c == b':') string)))
      (some (some (count_digits string 1)))

pub parse_host : List ℕ → Option (List ℕ)
unfolding find behind
parse_host string =
    get_slice string none (some (behind (find (λ c. c == b':' || c == b'/') string)))
