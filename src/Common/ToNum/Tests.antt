-- ===== src/Common/ToNum/Tests.antt =====
-- Numbers read from concrete strings.
use redox.Prelude.{◌^◌, ◌≡◌, refl, [], ◌∷◌}
use redox.Common.ToNum.{to_num_radix, to_num, digit_of, radix_loop}

to_num_80 : to_num (2 ^ 64) (b'8' ∷ b'0' ∷ b'/' ∷ b'1' ∷ []) ≡ 80
unfolding to_num to_num_radix radix_loop digit_of
to_num_80 = refl
