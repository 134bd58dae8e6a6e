-- ===== src/Common/Event/Tests.antt =====
-- A mouse event with a negative coordinate.
use redox.Prelude.{◌-◌, ◌^◌, ◌≡◌, true, false, arith}
use redox.Common.Event.{MouseEvent, mouse, to_option}
use redox.Common.Event.Laws.{to_event, to_option-to_event}

abbrev drag : MouseEvent
drag = record {
  x = 2 ^ 32 - 5;
  y = 7;
  left_button = true;
  middle_button = false;
  right_button = true;
}

to_option-to_event_example : to_option (to_event (mouse drag)) ≡ mouse drag
to_option-to_event_example = to_option-to_event (mouse drag) (omega arith, omega arith)
