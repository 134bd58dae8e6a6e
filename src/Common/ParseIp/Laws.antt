-- ===== src/Common/ParseIp/Laws.antt =====
-- What kernel/common/parse_ip.rs returns.
use redox.Prelude.{
  ℕ, ◌+◌, ◌-◌, ◌≤◌, ◌≡◌, ◌∙◌, inl, inr, List, [], ◌∷◌, none, some, ◌==◌, ◌||◌, take, arith,
  Option-cases,
}
use redox.Common.Slice.Laws.{get_slice_lem, get_slice_to, get_slice-panics}
use redox.Common.ParseIp.{find, count_digits, behind, parse_port, parse_host}

-- The separator is no digit, so the digits at the front end before it.
count_digits-le :
    (string : List ℕ) (b i : ℕ)
    → find (λ c. c == b':') string ≡ some i
    → count_digits string b ≤ b + i
unfolding find count_digits
count_digits-le [] b i e = cc
count_digits-le (c ∷ cs) b i e = elim (Option-cases (find (λ x. x == b':') cs)) [
  | inl n ↦ ground arith
  | inr (j, s) ↦ ground (arith, count_digits-le cs (b + 1) j s)
]

-- `parse_port` never returns a port: on a string with a colon the slice is empty, as its end is
-- counted from the front of the whole string; on any other string the call panics.
pub parse_port-never :
    (string : List ℕ)
    → ((i : ℕ) → find (λ c. c == b':') string ≡ some i → parse_port string ≡ some [])
      × (find (λ c. c == b':') string ≡ none → parse_port string ≡ none)
unfolding parse_port
parse_port-never string = (empty, λ n. rw (n, behind) (get_slice-panics string _).0)
  where
    empty : (i : ℕ) → find (λ c. c == b':') string ≡ some i → parse_port string ≡ some []
    empty i s =
        let e : count_digits string 1 - (i + 1) ≡ 0 = omega (arith, count_digits-le string 1 i s) in
        rw (s, behind) (get_slice_lem string (i + 1) (count_digits string 1) ∙ rw e)

-- `parse_host` returns the front of the string that ends with its first `:` or `/`: the separator
-- is not cut off. On a string with neither the call panics.
pub parse_host-separator :
    (string : List ℕ)
    → ((i : ℕ)
        → find (λ c. c == b':' || c == b'/') string ≡ some i
        → parse_host string ≡ some (take (i + 1) string))
      × (find (λ c. c == b':' || c == b'/') string ≡ none → parse_host string ≡ none)
unfolding parse_host
parse_host-separator string = (
  λ i s. rw (s, behind) (get_slice_to string (i + 1)),
  λ n. rw (n, behind) (get_slice-panics string none).1,
)
