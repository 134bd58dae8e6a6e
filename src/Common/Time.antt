-- ===== src/Common/Time.antt =====
-- kernel/common/time.rs: durations of i64 seconds and i32 nanoseconds, which wrap. The two loops of
-- `Duration::new` run on fuel.
pub mod Normal
pub mod Compare
mod Tests
use redox.Prelude.{ℕ, zero, suc, Bool, true, false, ◌&&◌, ◌||◌, ltb, leb, ◌+◌, if◌then◌else◌}
use redox.Prelude.Int.{ℤ, pos, negsuc, pos_part, neg_part, ◌+ℤ◌, ◌-ℤ◌, ltb_ℤ, wrap_i32, wrap_i64}

-- NANOS_PER_SEC
abbrev pub nanos_per_sec : ℤ
nanos_per_sec = pos 1_000_000_000

pub record Duration : Type 0 where
  pub secs : ℤ
  pub nanos : ℤ

-- `nanos >= NANOS_PER_SEC || (nanos > 0 && secs < 0)`
abbrev pub carries : ℤ → ℤ → Bool
carries secs nanos =
    leb (1_000_000_000 + neg_part nanos) (pos_part nanos)
    || ltb_ℤ (pos 0) nanos && ltb_ℤ secs (pos 0)

pub carry : ℕ → ℤ → ℤ → Duration
carry zero secs nanos = record { secs = secs; nanos = nanos }
carry (suc fuel) secs nanos =
    let rest = carry fuel (wrap_i64 (secs +ℤ pos 1)) (wrap_i32 (nanos -ℤ nanos_per_sec)) in
    if carries secs nanos then rest else record { secs = secs; nanos = nanos }

-- `nanos < 0 && secs > 0`
abbrev pub borrows : ℤ → ℤ → Bool
borrows secs nanos = ltb_ℤ nanos (pos 0) && ltb_ℤ (pos 0) secs

pub borrow : ℕ → ℤ → ℤ → Duration
borrow zero secs nanos = record { secs = secs; nanos = nanos }
borrow (suc fuel) secs nanos =
    let rest = borrow fuel (wrap_i64 (secs -ℤ pos 1)) (wrap_i32 (nanos +ℤ nanos_per_sec)) in
    if borrows secs nanos then rest else record { secs = secs; nanos = nanos }

pub new : ℤ → ℤ → Duration
unfolding carry borrow
new secs nanos = let carried = carry 3 secs nanos in borrow 3 carried.secs carried.nanos

pub add : Duration → Duration → Duration
add self other = new (wrap_i64 (self.secs +ℤ other.secs)) (wrap_i32 (self.nanos +ℤ other.nanos))

pub sub : Duration → Duration → Duration
sub self other = new (wrap_i64 (self.secs -ℤ other.secs)) (wrap_i32 (self.nanos -ℤ other.nanos))

abbrev pub is_zero : ℤ → Bool
is_zero (pos zero) = true
is_zero (pos (suc n)) = false
is_zero (negsuc n) = false

-- `==`
pub eq : Duration → Duration → Bool
unfolding sub
eq self other = let dif = sub self other in is_zero dif.secs && is_zero dif.nanos

pub data Order : Type 0 where
  less equal greater : Order

pub order_of : Duration → Order
order_of dif =
    if ltb_ℤ (pos 0) dif.secs
    then greater
    else if ltb_ℤ dif.secs (pos 0)
    then less
    else if ltb_ℤ (pos 0) dif.nanos
    then greater
    else if ltb_ℤ dif.nanos (pos 0)
    then less
    else equal

-- `partial_cmp`, which always returns an order.
pub partial_cmp : Duration → Duration → Order
unfolding order_of sub
partial_cmp self other = order_of (sub self other)

-- `self <= other`
pub le : Duration → Duration → Bool
unfolding partial_cmp
le self other = elim (partial_cmp self other) [ greater ↦ false | _ ↦ true ]
