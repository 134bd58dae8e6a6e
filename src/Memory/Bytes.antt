-- ===== src/Memory/Bytes.antt =====
-- memset and memmove of crates/system/externs.rs, by what they leave at each address.
use redox.Prelude.{
  ℕ, zero, suc, ◌+◌, ◌-◌, ◌%◌, ◌≤◌, ◌≡◌, inl, inr, arith, Bool-cases, ltb, ltb→lt, ltb-false,
  if◌then◌else◌,
}
use redox.Memory.{update, memset, copy_up, copy_down, memmove}
use redox.Memory.Table.{between}

pub memset_lem :
    (n s c : ℕ) (bytes : ℕ → ℕ) (a : ℕ)
    → memset n s c bytes a ≡ (if between s (s + n) a then c % 256 else bytes a)
unfolding memset
memset_lem zero s c bytes a = ground arith
memset_lem (suc n) s c bytes a = ground (arith, memset_lem n (s + 1) c (update bytes s (c % 256)) a)

-- The byte that a move of `n` bytes from `src` to `dest` leaves at `a`.
abbrev pub moved : ℕ → ℕ → ℕ → (ℕ → ℕ) → ℕ → ℕ
moved dest src n bytes a = if between dest (dest + n) a then bytes (src + (a - dest)) else bytes a

copy_up_lem :
    (n dest src : ℕ) (bytes : ℕ → ℕ) (a : ℕ)
    → dest ≤ src
    → copy_up n dest src bytes a ≡ moved dest src n bytes a
unfolding copy_up
copy_up_lem zero dest src bytes a h = ground arith
copy_up_lem (suc n) dest src bytes a h =
    ground (arith, copy_up_lem n (dest + 1) (src + 1) (update bytes dest (bytes src)) a)

copy_down_lem :
    (n dest src : ℕ) (bytes : ℕ → ℕ) (a : ℕ)
    → src ≤ dest
    → copy_down n dest src bytes a ≡ moved dest src n bytes a
unfolding copy_down
copy_down_lem zero dest src bytes a h = ground arith
copy_down_lem (suc n) dest src bytes a h =
    ground (arith, copy_down_lem n dest src (update bytes (dest + n) (bytes (src + n))) a)

-- `memmove` leaves at the destination what the source held before the call, also where the two
-- areas overlap, and changes no other byte.
pub memmove_lem :
    (dest src n : ℕ) (bytes : ℕ → ℕ) (a : ℕ) → memmove dest src n bytes a ≡ moved dest src n bytes a
unfolding memmove
memmove_lem dest src n bytes a = elim (Bool-cases (ltb src dest)) [
  | inl t ↦ let lt = ltb→lt _ _ t in rw t (copy_down_lem n dest src bytes a (omega arith))
  | inr t ↦ rw t (copy_up_lem n dest src bytes a (ltb-false _ _ t))
]
