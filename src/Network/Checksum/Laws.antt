-- ===== src/Network/Checksum/Laws.antt =====
-- The checksum that kernel/network/common.rs writes is the one that it accepts.
use redox.Prelude.{
  ℕ, zero, suc, ◌+◌, ◌-◌, ◌*◌, ◌/◌, ◌%◌, ◌^◌, ◌≤◌, ◌<◌, ◌≡◌, refl, ap, true, List, [], ◌∷◌, ◌++◌,
  ◌==◌, if◌then◌else◌, length, arith, length-append,
}
use redox.Network.Checksum.{sum_loop, sum, fold_carries, compile, check, calculate}

-- The loop ends, and leaves the representative of the sum modulo 0xFFFF in 1 .. 0xFFFF, or zero.
pub fold_carries_lem :
    (fuel s : ℕ) → s ≤ fuel → fold_carries fuel s ≡ (if s == 0 then 0 else (s - 1) % 0xFFFF + 1)
unfolding fold_carries
fold_carries_lem zero s h = ground arith
fold_carries_lem (suc fuel) s h = ground (arith, fold_carries_lem fuel (s % 2 ^ 16 + s / 2 ^ 16))

-- The sum of the pairs, without wrap.
plain_sum : List ℕ → ℕ
plain_sum [] = 0
plain_sum (a ∷ []) = a
plain_sum (a ∷ b ∷ bytes) = a + 2 ^ 8 * b + plain_sum bytes

abbrev pub Bytes : List ℕ → Type 0
Bytes [] = Unit
Bytes (b ∷ bs) = (b < 256) × Bytes bs

sum_loop_lem :
    (s : ℕ) (bytes : List ℕ)
    → Bytes bytes
    → s + 2 ^ 16 * length bytes < 2 ^ 64
    → sum_loop s bytes ≡ s + plain_sum bytes
unfolding sum_loop plain_sum
sum_loop_lem s [] bs h = omega arith
sum_loop_lem s (a ∷ []) bs h = omega arith
sum_loop_lem s (a ∷ b ∷ bytes) bs h =
    let e : (s + (a + 2 ^ 8 * b)) % 2 ^ 64 ≡ s + (a + 2 ^ 8 * b) = omega arith in
    rw e (omega (arith, sum_loop_lem (s + (a + 2 ^ 8 * b)) bytes bs.1.1 (omega arith)))

-- A field behind an even number of bytes adds its value.
plain_sum-field :
    (before after : List ℕ) (n a b : ℕ)
    → length before ≡ 2 * n
    → plain_sum (before ++ a ∷ b ∷ after) ≡ plain_sum (before ++ 0 ∷ 0 ∷ after) + a + 2 ^ 8 * b
unfolding plain_sum
plain_sum-field [] after n a b even = omega arith
plain_sum-field (x ∷ []) after n a b even = absurd (omega arith)
plain_sum-field (x ∷ y ∷ before) after zero a b even = absurd (omega arith)
plain_sum-field (x ∷ y ∷ before) after (suc n) a b even =
    omega (arith, plain_sum-field before after n a b (omega arith))

Bytes-field :
    (before after : List ℕ) (a b c d : ℕ)
    → c < 256
    → d < 256
    → Bytes (before ++ a ∷ b ∷ after)
    → Bytes (before ++ c ∷ d ∷ after)
Bytes-field [] after a b c d hc hd h = (hc, (hd, h.1.1))
Bytes-field (x ∷ before) after a b c d hc hd h = (h.0, Bytes-field before after a b c d hc hd h.1)

compile_lem : (s : ℕ) → compile s ≡ 0xFFFF - (if s == 0 then 0 else (s - 1) % 0xFFFF + 1)
unfolding compile
compile_lem s = ground (arith, fold_carries_lem s s (omega arith))

length-field :
    (before after : List ℕ) (a b c d : ℕ)
    → length (before ++ a ∷ b ∷ after) ≡ length (before ++ c ∷ d ∷ after)
length-field [] after a b c d = refl
length-field (x ∷ before) after a b c d = ap suc (length-field before after a b c d)

sum_lem : (bytes : List ℕ) → Bytes bytes → length bytes < 2 ^ 40 → sum bytes ≡ plain_sum bytes
unfolding sum
sum_lem bytes bs short = omega (arith, sum_loop_lem 0 bytes bs (omega arith))

pub compile-lt : (s : ℕ) → compile s < 2 ^ 16
compile-lt s = omega (arith, compile_lem s)

-- The fold of a sum with its own complement is all ones.
pub complement : (s : ℕ) → let t = s + compile s in fold_carries t t ≡ 0xFFFF
complement s =
    let c = compile s in
    ground (arith, compile_lem s, fold_carries_lem (s + c) (s + c) (omega arith))

check_lem : (bytes : List ℕ) → fold_carries (sum bytes) (sum bytes) ≡ 0xFFFF → check bytes ≡ true
unfolding check
check_lem bytes e = rw e

-- What `calculate` leaves in the checksum field, low byte first, makes `check` accept the bytes, if
-- the field stands behind an even number of bytes, every byte is below 256 and there are fewer than 2 ^ 40 bytes.
pub check-calculate :
    (before after : List ℕ) (half : ℕ)
    → length before ≡ 2 * half
    → Bytes (before ++ 0 ∷ 0 ∷ after)
    → length (before ++ 0 ∷ 0 ∷ after) < 2 ^ 40
    → let c = calculate before after in check (before ++ c % 256 ∷ c / 256 ∷ after) ≡ true
unfolding calculate
check-calculate before after half even bytes short =
    check_lem (before ++ c % 256 ∷ c / 256 ∷ after) (rw total (complement s))
  where
    s : ℕ
    s = sum (before ++ 0 ∷ 0 ∷ after)

    c : ℕ
    c = compile s

    lo_hi : (c % 256 < 256) × (c / 256 < 256)
    lo_hi = omega (arith, compile-lt s)

    total : sum (before ++ c % 256 ∷ c / 256 ∷ after) ≡ s + c
    total = omega (
      arith,
      sum_lem (before ++ c % 256 ∷ c / 256 ∷ after)
          (Bytes-field before after 0 0 (c % 256) (c / 256) lo_hi.0 lo_hi.1 bytes)
          (omega (arith, length-field before after (c % 256) (c / 256) 0 0)),
      sum_lem (before ++ 0 ∷ 0 ∷ after) bytes short,
      plain_sum-field before after half (c % 256) (c / 256) even,
    )

sum_loop-lt : (s : ℕ) (bytes : List ℕ) → s < 2 ^ 64 → sum_loop s bytes < 2 ^ 64
unfolding sum_loop
sum_loop-lt s [] h = h
sum_loop-lt s (a ∷ []) h = omega arith
sum_loop-lt s (a ∷ b ∷ bytes) h = sum_loop-lt ((s + (a + 2 ^ 8 * b)) % 2 ^ 64) bytes (omega arith)

pub sum-lt : (bytes : List ℕ) → sum bytes < 2 ^ 64
unfolding sum
sum-lt bytes = sum_loop-lt 0 bytes (omega arith)

pub Bytes-append : (xs ys : List ℕ) → Bytes xs → Bytes ys → Bytes (xs ++ ys)
Bytes-append [] ys p q = q
Bytes-append (x ∷ xs) ys p q = (p.0, Bytes-append xs ys p.1 q)

-- The sum of two parts, the first of even length.
plain_sum-append :
    (xs ys : List ℕ) (n : ℕ)
    → length xs ≡ 2 * n
    → plain_sum (xs ++ ys) ≡ plain_sum xs + plain_sum ys
unfolding plain_sum
plain_sum-append [] ys n e = omega arith
plain_sum-append (x ∷ []) ys n e = absurd (omega arith)
plain_sum-append (x ∷ y ∷ xs) ys zero e = absurd (omega arith)
plain_sum-append (x ∷ y ∷ xs) ys (suc n) e = omega (arith, plain_sum-append xs ys n (omega arith))

pub sum-append :
    (xs ys : List ℕ) (n : ℕ)
    → length xs ≡ 2 * n
    → Bytes xs
    → Bytes ys
    → length (xs ++ ys) < 2 ^ 40
    → sum (xs ++ ys) ≡ sum xs + sum ys
sum-append xs ys n e p q short = omega (
  arith,
  sum_lem (xs ++ ys) (Bytes-append xs ys p q) short,
  sum_lem xs p (omega (arith, length-append xs ys)),
  sum_lem ys q (omega (arith, length-append xs ys)),
  plain_sum-append xs ys n e,
)

-- As `check-calculate`, where the sum that is compiled is computed otherwise.
pub check-compile :
    (before after : List ℕ) (half t : ℕ)
    → length before ≡ 2 * half
    → Bytes (before ++ 0 ∷ 0 ∷ after)
    → length (before ++ 0 ∷ 0 ∷ after) < 2 ^ 40
    → t ≡ sum (before ++ 0 ∷ 0 ∷ after)
    → check (before ++ compile t % 256 ∷ compile t / 256 ∷ after) ≡ true
unfolding calculate
check-compile before after half t even bytes short e =
    rw e (check-calculate before after half even bytes short)

pub sum-nil : sum [] ≡ 0
unfolding sum sum_loop
sum-nil = refl
