-- ===== src/Prelude/Words.antt =====
-- `isize` values of 64 bits as their bit patterns, with the orders of core::cmp on them.
use Prim.Native.Nat.{ℕ, ◌+◌, ◌%◌, ◌^◌}
use mathlib.Core.Bool.{Bool}
use redox.Prelude.{ltb, if◌then◌else◌}

abbrev pub isize_ltb : ℕ → ℕ → Bool
isize_ltb a b = ltb ((a + 2 ^ 63) % 2 ^ 64) ((b + 2 ^ 63) % 2 ^ 64)

abbrev pub isize_min : ℕ → ℕ → ℕ
isize_min a b = if isize_ltb b a then b else a

abbrev pub isize_max : ℕ → ℕ → ℕ
isize_max a b = if isize_ltb b a then a else b

-- Wrapping addition of 64 bits.
abbrev pub add64 : ℕ → ℕ → ℕ
add64 a b = (a + b) % 2 ^ 64
