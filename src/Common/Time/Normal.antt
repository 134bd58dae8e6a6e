-- ===== src/Common/Time/Normal.antt =====
-- What `Duration::new` of kernel/common/time.rs makes of seconds and nanoseconds.
use redox.Prelude.{
  ℕ, zero, suc, ◌+◌, ◌*◌, ◌≤◌, ◌<◌, ◌^◌, ◌≡◌, ◌⊎◌, refl, arith, true, false, Bool-cases, inl, inr,
}
use redox.Prelude.Int.{
  ℤ, pos, negsuc, pos_part, neg_part, ◌+ℤ◌, ◌-ℤ◌, +ℤ_parts, -ℤ_parts, wrap_i32, wrap_i64, IsI32,
  wrap_i32_of_IsI32, wrap_i64_of_IsI64,
}
use redox.Common.Time.{Duration, nanos_per_sec, carries, carry, borrows, borrow, new}

-- One part of an integer is zero.
pub parts_apart : (a : ℤ) → (pos_part a ≡ 0) ⊎ (neg_part a ≡ 0)
parts_apart (pos n) = inr refl
parts_apart (negsuc n) = inl refl

-- The nanoseconds of both are the same.
abbrev pub SameTotal : ℤ → ℤ → Duration → Type 0
SameTotal s n d =
    pos_part s * 1_000_000_000 + pos_part n + neg_part d.secs * 1_000_000_000 + neg_part d.nanos
    ≡ neg_part s * 1_000_000_000 + neg_part n + pos_part d.secs * 1_000_000_000 + pos_part d.nanos

-- Room for `fuel` more seconds, and nanoseconds that `fuel` rounds use up.
record CanCarry (fuel : ℕ) (s n : ℤ) : Type 0 where
  secs_room : pos_part s + fuel < 2 ^ 63
  secs_fit : neg_part s ≤ 2 ^ 63
  nanos_fit : IsI32 n
  enough : pos_part n ≤ fuel * 1_000_000_000

-- What `carry` leaves.
record Carried (fuel : ℕ) (s n : ℤ) (d : Duration) : Type 0 where
  total : SameTotal s n d
  below : pos_part d.nanos < 1_000_000_000
  agree : 0 < pos_part d.nanos → neg_part d.secs ≡ 0
  fits : neg_part d.nanos ≤ 2 ^ 31
  secs_pos : pos_part d.secs ≤ pos_part s + fuel
  secs_neg : neg_part d.secs ≤ neg_part s

carries-true :
    (s n : ℤ)
    → carries s n ≡ true
    → (1_000_000_000 + neg_part n ≤ pos_part n)
      ⊎ ((neg_part n < pos_part n) × (pos_part s < neg_part s))
carries-true s n t = ground arith

carries-false :
    (s n : ℤ)
    → carries s n ≡ false
    → (pos_part n < 1_000_000_000 + neg_part n)
      × ((neg_part n < pos_part n) → neg_part s ≤ pos_part s)
carries-false s n t = (ground arith, λ h. ground arith)

step_down :
    (s n : ℤ) (fuel : ℕ)
    → CanCarry (suc fuel) s n
    → carries s n ≡ true
    → let s' = s +ℤ pos 1 in
      let n' = n -ℤ nanos_per_sec in (wrap_i64 s' ≡ s') × (wrap_i32 n' ≡ n') × CanCarry fuel s' n'
step_down s n fuel c t =
    let s' = s +ℤ pos 1 in
    let n' = n -ℤ nanos_per_sec in
    let ds = +ℤ_parts s (pos 1) in
    let dn = -ℤ_parts n nanos_per_sec in
    let a = parts_apart s in
    let b = parts_apart n in
    let a' = parts_apart s' in
    let b' = parts_apart n' in
    let up = carries-true s n t in
    let fits : IsI32 n' = omega arith in
    (
      wrap_i64_of_IsI64 s' (omega arith),
      wrap_i32_of_IsI32 n' fits,
      record {
        secs_room = omega arith;
        secs_fit = omega arith;
        nanos_fit = fits;
        enough = omega arith;
      },
    )

carry_lem : (fuel : ℕ) (s n : ℤ) → CanCarry fuel s n → Carried fuel s n (carry fuel s n)
unfolding carry
carry_lem zero s n c = let a = parts_apart s in let b = parts_apart n in omega arith
carry_lem (suc fuel) s n c = elim (Bool-cases (carries s n)) [
  | inr f ↦
      let stop = carries-false s n f in
      let a = parts_apart s in
      let b = parts_apart n in
      rw f (record {
        total = omega arith;
        below = omega arith;
        agree = λ h. omega (arith, stop.1 (omega arith));
        fits = omega arith;
        secs_pos = omega arith;
        secs_neg = omega arith;
      })
  | inl t ↦
      let (ws, wn, c') = step_down s n fuel c t in
      let ih = carry_lem fuel (s +ℤ pos 1) (n -ℤ nanos_per_sec) c' in
      let ds = +ℤ_parts s (pos 1) in
      let dn = -ℤ_parts n nanos_per_sec in
      let a = parts_apart s in
      let b = parts_apart n in
      let a' = parts_apart (s +ℤ pos 1) in
      let b' = parts_apart (n -ℤ nanos_per_sec) in
      let up = carries-true s n t in
      rw (t, ws, wn)
        (record {
          total = omega arith;
          below = ih.below;
          agree = ih.agree;
          fits = ih.fits;
          secs_pos = omega arith;
          secs_neg = omega arith;
        })
]

-- Nanoseconds that `fuel` rounds fill up, in the other direction.
record CanBorrow (fuel : ℕ) (s n : ℤ) : Type 0 where
  secs_fit : (pos_part s < 2 ^ 63) × (neg_part s ≤ 2 ^ 63)
  nanos_fit : IsI32 n
  below : pos_part n < 1_000_000_000
  agree : 0 < pos_part n → neg_part s ≡ 0
  enough : neg_part n ≤ fuel * 1_000_000_000

-- Less than a second of nanoseconds above the seconds, and of no other sign than they.
pub record Normal (d : Duration) : Type 0 where
  pub below : pos_part d.nanos < 1_000_000_000
  pub up : 0 < pos_part d.nanos → neg_part d.secs ≡ 0
  pub down : 0 < neg_part d.nanos → pos_part d.secs ≡ 0

borrows-true :
    (s n : ℤ) → borrows s n ≡ true → (pos_part n < neg_part n) × (neg_part s < pos_part s)
borrows-true s n t = (ground arith, ground arith)

borrows-false : (s n : ℤ) → borrows s n ≡ false → pos_part n < neg_part n → pos_part s ≤ neg_part s
borrows-false s n t h = ground arith

borrow_lem :
    (fuel : ℕ) (s n : ℤ)
    → CanBorrow fuel s n
    → SameTotal s n (borrow fuel s n) × Normal (borrow fuel s n)
unfolding borrow
borrow_lem zero s n c =
    let a = parts_apart s in
    let b = parts_apart n in
    (omega arith, record { below = c.below; up = c.agree; down = λ h. omega arith })
borrow_lem (suc fuel) s n c = elim (Bool-cases (borrows s n)) [
  | inr f ↦
      let a = parts_apart s in
      let b = parts_apart n in
      rw f (
        omega arith,
        record { below = c.below; up = c.agree; down = λ h. omega (arith, borrows-false s n f) },
      )
  | inl t ↦
      let s' = s -ℤ pos 1 in
      let n' = n +ℤ nanos_per_sec in
      let ds = -ℤ_parts s (pos 1) in
      let dn = +ℤ_parts n nanos_per_sec in
      let a = parts_apart s in
      let b = parts_apart n in
      let a' = parts_apart s' in
      let b' = parts_apart n' in
      let down = borrows-true s n t in
      let fits : IsI32 n' = omega arith in
      let ih = borrow_lem fuel s' n' (record {
        secs_fit = omega arith;
        nanos_fit = fits;
        below = omega arith;
        agree = λ h. omega arith;
        enough = omega arith;
      }) in
      rw (t, wrap_i64_of_IsI64 s' (omega arith), wrap_i32_of_IsI32 n' fits)
        (omega (arith, ih.0), ih.1)
]

-- From seconds that are at least three below the top of an i64, and any i32 of nanoseconds, the
-- fuel is enough: `Duration::new` keeps the total of nanoseconds, with less than a second of
-- nanoseconds above the seconds, and seconds and nanoseconds of no opposite signs.
pub new_lem :
    (s n : ℤ)
    → pos_part s + 3 < 2 ^ 63
    → neg_part s ≤ 2 ^ 63
    → IsI32 n
    → SameTotal s n (new s n) × Normal (new s n)
unfolding new
new_lem s n room fit hn =
    let c =
      carry_lem 3 s n
        (record { secs_room = room; secs_fit = fit; nanos_fit = hn; enough = omega arith }) in
    let d = carry 3 s n in
    let b = borrow_lem 3 d.secs d.nanos (record {
      secs_fit = omega arith;
      nanos_fit = omega arith;
      below = c.below;
      agree = c.agree;
      enough = omega arith;
    }) in
    (omega (arith, c.total, b.0), b.1)
