-- ===== src/Common/ToNum.antt =====
-- kernel/common/to_num.rs: numbers in a string. `num *= radix; num += digit` wraps at the size of a
-- `usize`, whose modulus is the parameter of the section.
pub mod Laws
mod Tests
use redox.Prelude.{
  ℕ, zero, suc, ◌+◌, ◌-◌, ◌*◌, ◌%◌, Bool, true, false, ◌&&◌, List, [], ◌∷◌, Option, none, some, ltb,
  leb, ◌==◌, if◌then◌else◌,
}

-- The digit that a character stands for; `none` ends the number.
pub digit_of : ℕ → Option ℕ
digit_of c =
    if leb b'0' c && leb c b'9'
    then some (c - b'0')
    else if leb b'A' c && leb c b'Z'
    then some (c - b'A' + 10)
    else if leb b'a' c && leb c b'z'
    then some (c - b'a' + 10)
    else none

module _ (modulus : ℕ) where
  pub radix_loop : ℕ → ℕ → List ℕ → ℕ
  radix_loop radix num [] = num
  radix_loop radix num (c ∷ cs) = elim (digit_of c) [
    | none ↦ num
    | some digit ↦
        if leb radix digit
        then num
        else radix_loop radix ((num * radix % modulus + digit) % modulus) cs
  ]

  pub to_num_radix : List ℕ → ℕ → ℕ
  to_num_radix string radix = if radix == 0 then 0 else radix_loop radix 0 string

  -- A negative `isize` as its bit pattern.
  negate : ℕ → ℕ
  negate x = (modulus - x % modulus) % modulus

  pub to_num_radix_signed : List ℕ → ℕ → ℕ
  unfolding negate
  to_num_radix_signed [] radix = to_num_radix [] radix
  to_num_radix_signed (c ∷ cs) radix =
      if c == b'-' then negate (to_num_radix cs radix) else to_num_radix (c ∷ cs) radix

  pub to_num : List ℕ → ℕ
  to_num string = to_num_radix string 10

  pub to_num_signed : List ℕ → ℕ
  to_num_signed string = to_num_radix_signed string 10
