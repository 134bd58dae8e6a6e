-- ===== src/Network/Checksum.antt =====
-- The Internet checksum of kernel/network/common.rs. The memory that `ptr` and `len` name is a list
-- of bytes; `*(ptr as *const u16)` is little endian, sums are `usize` sums of 64 bits.
pub mod Laws
mod Tests
use redox.Prelude.{
  ℕ, zero, suc, ◌+◌, ◌-◌, ◌*◌, ◌/◌, ◌%◌, ◌^◌, Bool, true, false, List, [], ◌∷◌, ◌++◌, ◌==◌,
  if◌then◌else◌, ltb,
}

-- `Checksum::sum`: the loops over pairs of bytes and the last byte alone.
pub sum_loop : ℕ → List ℕ → ℕ
sum_loop sum [] = sum
sum_loop sum (a ∷ []) = (sum + a) % 2 ^ 64
sum_loop sum (a ∷ b ∷ bytes) = sum_loop ((sum + (a + 2 ^ 8 * b)) % 2 ^ 64) bytes

pub sum : List ℕ → ℕ
sum bytes = sum_loop 0 bytes

-- `while (sum >> 16) > 0 { sum = (sum & 0xFFFF) + (sum >> 16); }`, on fuel
pub fold_carries : ℕ → ℕ → ℕ
fold_carries zero s = s
fold_carries (suc fuel) s =
    let rest = fold_carries fuel (s % 2 ^ 16 + s / 2 ^ 16) in if ltb 0 (s / 2 ^ 16) then rest else s

pub compile : ℕ → ℕ
unfolding fold_carries
compile s = 0xFFFF - fold_carries s s % 2 ^ 16

pub check : List ℕ → Bool
unfolding fold_carries
check bytes = let s = sum bytes in fold_carries s s == 0xFFFF

-- `calculate` on a header with the bytes `before` and `after` its checksum field: the value that is
-- left in the field, which is zero during the sum.
pub calculate : List ℕ → List ℕ → ℕ
calculate before after = compile (sum (before ++ 0 ∷ 0 ∷ after))
