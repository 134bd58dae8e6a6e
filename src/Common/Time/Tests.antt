-- ===== src/Common/Time/Tests.antt =====
-- Durations at concrete values.
use redox.Prelude.{◌≡◌, ◌<◌, arith}
use redox.Prelude.Int.{pos, negsuc}
use redox.Common.Time.{Duration, new, partial_cmp, less, equal, greater}
use redox.Common.Time.Normal.{SameTotal, Normal, new_lem}
use redox.Common.Time.Compare.{span, partial_cmp_lem}

-- Five seconds and less 1.5 seconds.
new_lem_example :
    let d = new (pos 5) (negsuc 1_499_999_999) in
    SameTotal (pos 5) (negsuc 1_499_999_999) d × Normal d
new_lem_example = new_lem (pos 5) (negsuc 1_499_999_999) (omega arith) (omega arith) (omega arith)

abbrev early : Duration
early = record { secs = pos 3; nanos = pos 999_999_999 }

abbrev late : Duration
late = record { secs = pos 4; nanos = pos 0 }

partial_cmp_lem_example :
    (span early late < span late early → partial_cmp early late ≡ less)
    × (span early late ≡ span late early → partial_cmp early late ≡ equal)
    × (span late early < span early late → partial_cmp early late ≡ greater)
partial_cmp_lem_example = partial_cmp_lem early late (record {
  secs_up = omega arith;
  secs_down = omega arith;
  nanos_up = omega arith;
  nanos_down = omega arith;
})
