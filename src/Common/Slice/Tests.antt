-- ===== src/Common/Slice/Tests.antt =====
-- Slices of a concrete list.
use redox.Prelude.{ℕ, ◌≡◌, refl, List, [], ◌∷◌, some}
use redox.Common.Slice.{get_slice, slice, range}

abbrev digits : List ℕ
digits = 1 ∷ 2 ∷ 3 ∷ []

inverted : get_slice digits (some (some 2)) (some (some 1)) ≡ some []
unfolding get_slice slice range
inverted = refl
