-- ===== src/Common/Event.antt =====
-- kernel/common/event.rs: events of the keyboard and the mouse. An i64 is given by its 64 bits, an
-- i32 by its 32 bits.
pub mod Laws
mod Tests
use redox.Prelude.{
  ℕ, ◌+◌, ◌*◌, ◌-◌, ◌/◌, ◌%◌, ◌^◌, Bool, true, false, ltb, leb, ◌==◌, ◌||◌, ◌&&◌, Option, none,
  some, if◌then◌else◌,
}

pub record Event : Type 0 where
  pub code : ℕ
  pub a : ℕ
  pub b : ℕ
  pub c : ℕ

pub record MouseEvent : Type 0 where
  pub x : ℕ
  pub y : ℕ
  pub left_button : Bool
  pub middle_button : Bool
  pub right_button : Bool

pub record KeyEvent : Type 0 where
  pub character : ℕ
  pub scancode : ℕ
  pub pressed : Bool

pub data EventOption : Type 0 where
  mouse : MouseEvent → EventOption
  key : KeyEvent → EventOption
  quit : EventOption
  unknown : Event → EventOption
  no_event : EventOption

pub null_event : Event
null_event = record { code = 0; a = 0; b = 0; c = 0 }

-- `b as i64` of a bool, and `v as i64` of an i32, which repeats the sign.
pub of_bool : Bool → ℕ
of_bool true = 1
of_bool false = 0

pub extend : ℕ → ℕ
extend v = if ltb v (2 ^ 31) then v else v + (2 ^ 64 - 2 ^ 32)

-- `char::from_u32(v)`, a surrogate or a value beyond 0x10FFFF being none, and `'\0'` for none.
pub character_of : ℕ → ℕ
character_of v = if leb 0x11_0000 v || leb 0xD800 v && ltb v 0xE000 then 0 else v

pub mouse_to_event : MouseEvent → Event
unfolding extend of_bool
mouse_to_event m = record {
  code = 1;
  a = extend m.x;
  b = extend m.y;
  -- the three bits do not overlap
  c = of_bool m.left_button + 2 * of_bool m.middle_button + 4 * of_bool m.right_button;
}

pub mouse_from_event : Event → MouseEvent
mouse_from_event e = record {
  x = e.a % 2 ^ 32;
  y = e.b % 2 ^ 32;
  left_button = e.c % 2 == 1;
  middle_button = e.c / 2 % 2 == 1;
  right_button = e.c / 4 % 2 == 1;
}

pub key_to_event : KeyEvent → Event
unfolding of_bool
key_to_event k = record { code = 2; a = k.character; b = k.scancode; c = of_bool k.pressed }

pub key_from_event : Event → KeyEvent
unfolding character_of
key_from_event e = record {
  character = character_of (e.a % 2 ^ 32);
  scancode = e.b % 256;
  pressed = ltb 0 e.c && ltb e.c (2 ^ 63);
}

pub quit_to_event : Event
quit_to_event = record { code = 3; a = 0; b = 0; c = 0 }

pub to_option : Event → EventOption
unfolding mouse_from_event key_from_event
to_option e =
    if e.code == 0
    then no_event
    else if e.code == 1
    then mouse (mouse_from_event e)
    else if e.code == 2
    then key (key_from_event e)
    else if e.code == 3
    then quit
    else unknown e
