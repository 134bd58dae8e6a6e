-- ===== src/Common/Time/Compare.antt =====
-- The order of durations of kernel/common/time.rs, by the nanoseconds that they last.
use redox.Prelude.{ℕ, ◌+◌, ◌*◌, ◌≤◌, ◌<◌, ◌^◌, ◌≡◌, arith}
use redox.Prelude.Int.{
  pos_part, neg_part, ◌-ℤ◌, -ℤ_parts, IsI32, wrap_i32_of_IsI32, wrap_i64_of_IsI64,
}
use redox.Common.Time.{Duration, sub, order_of, partial_cmp, less, equal, greater}
use redox.Common.Time.Normal.{SameTotal, Normal, new_lem, parts_apart}

-- What the positive parts of one and the negative parts of the other come to.
abbrev pub span : Duration → Duration → ℕ
span a b =
    pos_part a.secs * 1_000_000_000
    + pos_part a.nanos
    + neg_part b.secs * 1_000_000_000
    + neg_part b.nanos

-- The seconds and the nanoseconds of the difference fit, with three seconds to spare.
pub record Comparable (a b : Duration) : Type 0 where
  pub secs_up : pos_part a.secs + neg_part b.secs + 3 < 2 ^ 63
  pub secs_down : neg_part a.secs + pos_part b.secs ≤ 2 ^ 63
  pub nanos_up : pos_part a.nanos + neg_part b.nanos < 2 ^ 31
  pub nanos_down : neg_part a.nanos + pos_part b.nanos ≤ 2 ^ 31

order_of-Normal :
    (d : Duration)
    → Normal d
    → let up = pos_part d.secs * 1_000_000_000 + pos_part d.nanos in
      let down = neg_part d.secs * 1_000_000_000 + neg_part d.nanos in
      (up < down → order_of d ≡ less)
      × (up ≡ down → order_of d ≡ equal)
      × (down < up → order_of d ≡ greater)
unfolding order_of
order_of-Normal d n =
    let a = parts_apart d.secs in
    let b = parts_apart d.nanos in (λ h. ground arith, λ h. ground arith, λ h. ground arith)

sub_lem :
    (a b : Duration)
    → Comparable a b
    → SameTotal (a.secs -ℤ b.secs) (a.nanos -ℤ b.nanos) (sub a b) × Normal (sub a b)
unfolding sub
sub_lem a b c =
    let s = a.secs -ℤ b.secs in
    let n = a.nanos -ℤ b.nanos in
    let ds = -ℤ_parts a.secs b.secs in
    let dn = -ℤ_parts a.nanos b.nanos in
    let x = parts_apart s in
    let y = parts_apart n in
    let fits : IsI32 n = omega arith in
    rw (wrap_i64_of_IsI64 s (omega arith), wrap_i32_of_IsI32 n fits)
      (new_lem s n (omega arith) (omega arith) fits)

-- Where the difference fits, `partial_cmp` orders two durations by the nanoseconds that they last.
pub partial_cmp_lem :
    (a b : Duration)
    → Comparable a b
    → (span a b < span b a → partial_cmp a b ≡ less)
      × (span a b ≡ span b a → partial_cmp a b ≡ equal)
      × (span b a < span a b → partial_cmp a b ≡ greater)
unfolding partial_cmp
partial_cmp_lem a b c =
    let (t, n) = sub_lem a b c in
    let ds = -ℤ_parts a.secs b.secs in
    let dn = -ℤ_parts a.nanos b.nanos in
    let order = order_of-Normal (sub a b) n in
    (λ h. order.0 (omega arith), λ h. order.1 (omega arith), λ h. order.2 (omega arith))
