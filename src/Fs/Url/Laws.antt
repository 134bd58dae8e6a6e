-- ===== src/Fs/Url/Laws.antt =====
-- Printing and parsing of kernel/fs/url.rs.
use redox.Prelude.{
  ℕ, append_assoc, ◌+◌, ◌≡◌, refl, ◌∙◌, ap, sym, ◌≢◌, Bool, [], ◌∷◌, ◌++◌, Option, none, some, ◌==◌,
  length, take, drop, length-append, arith, take-append_left, drop-append_left, Option-cases, inl,
  inr, zero, suc,
}
use redox.Common.Slice.Laws.{get_slice_to, get_slice_from}
use redox.Common.ParseIp.{find}
use redox.Fs.Url.{Str, Url, Parsed, ok, err, from_str, to_string, len}

abbrev is_colon : ℕ → Bool
is_colon c = c == b':'

-- No byte is a colon.
abbrev pub NoColon : Str → Type 0
NoColon [] = Unit
NoColon (c ∷ cs) = (c ≢ b':') × NoColon cs

find-NoColon : (xs ys : Str) → NoColon xs → find is_colon (xs ++ b':' ∷ ys) ≡ some (length xs)
unfolding find
find-NoColon [] ys h = refl
find-NoColon (x ∷ xs) ys h = ground (arith, find-NoColon xs ys h.1)

-- What `find` says of a position, and of the lack of one.
find-some :
    (s : Str) (i : ℕ)
    → find is_colon s ≡ some i
    → NoColon (take i s) × (s ≡ take i s ++ b':' ∷ drop (suc i) s)
unfolding find
find-some [] i e = cc
find-some (c ∷ s) zero e = ground arith
find-some (c ∷ s) (suc i) e = elim (Option-cases (find is_colon s)) [
  | inl n ↦ ground arith
  | inr (j, f) ↦
      let (none_before, whole) = find-some s i (ground arith) in
      ((ground arith, none_before), ap (λ t. c ∷ t) whole)
]

find-none : (s : Str) → find is_colon s ≡ none → NoColon s
unfolding find
find-none [] e = tt
find-none (c ∷ s) e = elim (Option-cases (find is_colon s)) [
  | inl n ↦ (ground arith, find-none s n)
  | inr (j, f) ↦ ground arith
]

NoColon-find : (s : Str) → NoColon s → find is_colon s ≡ none
unfolding find
NoColon-find [] h = refl
NoColon-find (c ∷ s) h = ground (arith, NoColon-find s h.1)

from_str-some :
    (s : Str) (i : ℕ)
    → find is_colon s ≡ some i
    → from_str s ≡ some (ok (record { scheme = take i s; reference = drop (i + 1) s }))
unfolding from_str
from_str-some s i e = rw (e, from_str, get_slice_to, get_slice_from)

from_str-none : (s : Str) → find is_colon s ≡ none → from_str s ≡ some (err 22)
unfolding from_str
from_str-none s e = rw (e, from_str)

-- A URL whose scheme has no colon is read back from its text.
pub from_str-to_string : (u : Url) → NoColon u.scheme → from_str (to_string u) ≡ some (ok u)
unfolding to_string
from_str-to_string u h =
    let scheme = take-append_left u.scheme (b':' ∷ u.reference) in
    let colon : u.scheme ++ b':' ∷ u.reference ≡ (u.scheme ++ b':' ∷ []) ++ u.reference =
      sym (append_assoc u.scheme (b':' ∷ []) u.reference) in
    let long : length u.scheme + 1 ≡ length (u.scheme ++ b':' ∷ []) =
      omega (arith, length-append u.scheme (b':' ∷ [])) in
    let reference : drop (length u.scheme + 1) (u.scheme ++ b':' ∷ u.reference) ≡ u.reference =
      rw (long, colon) (drop-append_left (u.scheme ++ b':' ∷ []) u.reference) in
    from_str-some (u.scheme ++ b':' ∷ u.reference) (length u.scheme)
      (find-NoColon u.scheme u.reference h)
    ∙ rw (scheme, reference)

pub data Reads (s : Str) (r : Option Parsed) : Type 0 where
  url :
      (u : Url)
      → r ≡ some (ok u)
      → to_string u ≡ s
      → NoColon u.scheme
      → len u ≡ length s
      → Reads s r
  no_colon : r ≡ some (err 22) → NoColon s → Reads s r

len-to_string : (u : Url) → len u ≡ length (to_string u)
unfolding len to_string
len-to_string u = omega (arith, length-append u.scheme (b':' ∷ u.reference))

-- `from_str` never panics. On a text with a colon it returns the URL that prints as this text and
-- whose scheme has no colon, so that the first colon separates, and `len` is the text's length; on
-- any other it returns the error 22.
pub from_str-Reads : (s : Str) → Reads s (from_str s)
from_str-Reads s = elim (Option-cases (find is_colon s)) [
  | inl n ↦ no_colon (from_str-none s n) (find-none s n)
  | inr (i, f) ↦
      let u : Url = record { scheme = take i s; reference = drop (i + 1) s } in
      let (before, whole) = find-some s i f in
      let next : i + 1 ≡ suc i = omega arith in
      let text : to_string u ≡ s = unfold to_string in rw next (sym whole) in
      url u (from_str-some s i f) text before (len-to_string u ∙ ap length text)
]
