-- ===== src/Common/Slice.antt =====
-- kernel/common/slice.rs: bounded slices. An end of a range is absent, or a value whose
-- `as_option` is `none` (then `unwrap` panics) or a position. A panic is `none`.
pub mod Laws
mod Tests
use redox.Prelude.{
  ℕ, ◌+◌, ◌-◌, ◌≤◌, ◌≡◌, min, Bool, List, Option, none, some, ◌>>=◌, leb, length, take, drop,
  if◌then◌else◌,
}

-- `x.map(|x| x.as_option()).unwrap_or(Some(default)).unwrap()`
pub position : Option (Option ℕ) → ℕ → Option ℕ
position none default = some default
position (some none) default = none
position (some (some x)) default = some x

-- `if start <= end { start..end } else { 0..0 }`
pub range : ℕ → ℕ → ℕ × ℕ
range start end = if leb start end then (start, end) else (0, 0)

pub bound : ℕ → Option (Option ℕ) → Option (Option ℕ) → Option (ℕ × ℕ)
unfolding position range
bound len a b = do
  start ← position a 0
  end ← position b len
  some (range (min start len) (min end len))

-- `&self[range]`
pub slice {ℓ} : {A : Type ℓ} → List A → ℕ × ℕ → List A
slice xs (start, end) = take (end - start) (drop start xs)

-- `bound` keeps the range within the slice, so that the index does not panic.
unfoldable pub get_slice {ℓ} :
    {A : Type ℓ} → List A → Option (Option ℕ) → Option (Option ℕ) → Option (List A)
unfolding bound slice
get_slice xs a b = do r ← bound (length xs) a b; some (slice xs r)
