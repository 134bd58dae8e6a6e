-- ===== src/Network/Bytes.antt =====
-- kernel/network/common.rs: the numbers in network order `n16` and `n32`, and the addresses.
-- A shift joined by `|` with bits below it is a product and a sum.
pub mod Laws
mod Tests
use redox.Prelude.{
  ℕ, ◌+◌, ◌*◌, ◌/◌, ◌%◌, ◌^◌, Bool, true, false, ◌&&◌, List, [], ◌∷◌, ◌++◌, zero, suc, ◌==◌, ltb,
  if◌then◌else◌, set, length,
}
use redox.Common.ToNum.{to_num_radix, to_num}

pub record N16 : Type 0 where
  pub b0 : ℕ
  pub b1 : ℕ

-- `n16::new` and `n16::set`, with `u8` casts.
pub new16 : ℕ → N16
new16 value = record { b0 = value / 2 ^ 8 % 256; b1 = value % 256 }

pub get16 : N16 → ℕ
get16 n = n.b0 * 2 ^ 8 + n.b1

pub record N32 : Type 0 where
  pub b0 : ℕ
  pub b1 : ℕ
  pub b2 : ℕ
  pub b3 : ℕ

-- `n32::new` and `n32::set`
pub new32 : ℕ → N32
new32 value = record {
  b0 = value / 2 ^ 24 % 256;
  b1 = value / 2 ^ 16 % 256;
  b2 = value / 2 ^ 8 % 256;
  b3 = value % 256;
}

pub get32 : N32 → ℕ
get32 n = n.b0 * 2 ^ 24 + n.b1 * 2 ^ 16 + n.b2 * 2 ^ 8 + n.b3

-- `for i in 0..n { if self.bytes[i] != other.bytes[i] { return false; } } true`
unfoldable pub equals : List ℕ → List ℕ → Bool
equals [] ys = true
equals (x ∷ xs) [] = false
equals (x ∷ xs) (y ∷ ys) = let rest = equals xs ys in if x == y then rest else false

-- `string.split(separator)`
pub split_on : ℕ → List ℕ → List (List ℕ)
split_on separator [] = [] ∷ []
split_on separator (c ∷ cs) = elim (split_on separator cs) [
  | [] ↦ (c ∷ []) ∷ []
  | part ∷ parts ↦ if c == separator then [] ∷ part ∷ parts else (c ∷ part) ∷ parts
]

-- The loop over the parts: octet `i` is written, and parts beyond the address end the loop.
pub write_octets : ℕ → List (List ℕ) → ℕ → List ℕ → List ℕ
write_octets radix [] i addr = addr
write_octets radix (part ∷ parts) i addr =
    write_octets radix parts (i + 1) (set addr i (to_num_radix (2 ^ 64) part radix % 256))

-- `MacAddr::from_str` and `Ipv4Addr::from_string`
pub mac_from_str : List ℕ → List ℕ
unfolding write_octets
mac_from_str string = write_octets 16 (split_on b'.' string) 0 (0 ∷ 0 ∷ 0 ∷ 0 ∷ 0 ∷ 0 ∷ [])

pub ipv4_from_string : List ℕ → List ℕ
unfolding write_octets
ipv4_from_string string = write_octets 10 (split_on b'.' string) 0 (0 ∷ 0 ∷ 0 ∷ 0 ∷ [])

-- `format!("{:X}", octet)` and `{}` of a byte: no leading zeros.
hex_digit : ℕ → ℕ
hex_digit d = if ltb d 10 then 48 + d else 55 + d

pub hex_octet : ℕ → List ℕ
unfolding hex_digit
hex_octet b = if ltb b 16 then hex_digit b ∷ [] else hex_digit (b / 16) ∷ hex_digit (b % 16) ∷ []

pub decimal_octet : ℕ → List ℕ
decimal_octet b =
    if ltb b 10
    then (48 + b) ∷ []
    else (if ltb b 100
        then (48 + b / 10) ∷ (48 + b % 10) ∷ []
        else (48 + b / 100) ∷ (48 + b / 10 % 10) ∷ (48 + b % 10) ∷ [])

-- `MacAddr::to_string` and `Ipv4Addr::to_string`: a dot before each octet but the first.
pub dotted : (ℕ → List ℕ) → List ℕ → List ℕ
dotted octet [] = []
dotted octet (b ∷ []) = octet b
dotted octet (b ∷ c ∷ bs) = octet b ++ b'.' ∷ dotted octet (c ∷ bs)

pub mac_to_string : List ℕ → List ℕ
unfolding hex_octet dotted
mac_to_string addr = dotted hex_octet addr

pub ipv4_to_string : List ℕ → List ℕ
unfolding decimal_octet dotted
ipv4_to_string addr = dotted decimal_octet addr
