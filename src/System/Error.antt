-- ===== src/System/Error.antt =====
-- The results of system calls as machine words, crates/system/error.rs, in 64 bits.
use redox.Prelude.{ℕ, ◌+◌, ◌-◌, ◌%◌, ◌^◌, ◌≤◌, ◌<◌, ◌≡◌, ◌&&◌, ltb, leb, if◌then◌else◌, arith}

-- `Result<usize>`: an `Error` is its errno, an isize.
pub data Result : Type 0 where
  ok : ℕ → Result
  err : ℕ → Result

-- `-error.errno as usize`, and `-(value as isize)`
unfoldable pub negate : ℕ → ℕ
negate v = (2 ^ 64 - v) % 2 ^ 64

unfoldable pub mux : Result → ℕ
unfolding negate
mux (ok value) = value
mux (err errno) = negate errno

-- `STR_ERROR` has 132 texts.
pub demux : ℕ → Result
unfolding negate
demux value =
    let errno = negate value in if leb 1 errno && ltb errno 132 then err errno else ok value

-- An error that `STR_ERROR` has a text for, other than 0, is read back by `demux`.
pub demux-mux_err : (errno : ℕ) → 1 ≤ errno → errno < 132 → demux (mux (err errno)) ≡ err errno
unfolding demux mux negate
demux-mux_err errno h k =
    let e : (2 ^ 64 - (2 ^ 64 - errno) % 2 ^ 64) % 2 ^ 64 ≡ errno = omega arith in
    rw e (ground arith)

-- A value that is below the words of those errors is read back too.
pub demux-mux_ok : (value : ℕ) → value + 131 < 2 ^ 64 → demux (mux (ok value)) ≡ ok value
unfolding demux mux negate
demux-mux_ok value h = ground arith

-- What a machine word can carry: an errno with a text, or a value below the words of those.
pub data Carried : Result → Type 0 where
  a_value : {value : ℕ} → value + 131 < 2 ^ 64 → Carried (ok value)
  an_error : {errno : ℕ} → 1 ≤ errno → errno < 132 → Carried (err errno)

pub demux-mux : (r : Result) → Carried r → demux (mux r) ≡ r
demux-mux (ok value) (a_value h) = demux-mux_ok value h
demux-mux (err errno) (an_error h k) = demux-mux_err errno h k

pub mux-lt : (r : Result) → Carried r → mux r < 2 ^ 64
unfolding mux negate
mux-lt (ok value) (a_value h) = omega arith
mux-lt (err errno) (an_error h k) = omega arith
