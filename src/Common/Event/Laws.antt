-- ===== src/Common/Event/Laws.antt =====
-- Events written to the wire and read back, of kernel/common/event.rs.
use redox.Prelude.{
  ℕ, ◌≤◌, ◌<◌, ◌^◌, ◌≡◌, refl, ◌⊎◌, ap, arith, true, false, Bool, ltb, ◌&&◌, ◌==◌, ◌+◌, ◌*◌, ◌/◌,
  ◌%◌, inl, inr,
}
use redox.Common.Event.{
  Event, MouseEvent, KeyEvent, EventOption, mouse, key, quit, unknown, no_event, extend, of_bool,
  character_of, mouse_to_event, mouse_from_event, key_to_event, key_from_event, quit_to_event,
  null_event, to_option,
}

-- The event that stands for what `to_option` returns.
abbrev pub to_event : EventOption → Event
unfolding mouse_to_event key_to_event quit_to_event null_event
to_event (mouse m) = mouse_to_event m
to_event (key k) = key_to_event k
to_event quit = quit_to_event
to_event (unknown e) = e
to_event no_event = null_event

-- What a Rust value of the type satisfies, and an unknown code.
abbrev pub Valid : EventOption → Type 0
Valid (mouse m) = (m.x < 2 ^ 32) × (m.y < 2 ^ 32)
Valid (key k) =
    ((k.character < 0xD800) ⊎ ((0xE000 ≤ k.character) × (k.character < 0x11_0000)))
    × (k.scancode < 256)
Valid quit = Unit
Valid (unknown e) = 3 < e.code
Valid no_event = Unit

mod-extend : (v : ℕ) → v < 2 ^ 32 → extend v % 2 ^ 32 ≡ v
unfolding extend
mod-extend v h = ground arith

buttons :
    (l m r : Bool)
    → let c = of_bool l + 2 * of_bool m + 4 * of_bool r in
      ((c % 2 == 1) ≡ l) × ((c / 2 % 2 == 1) ≡ m) × ((c / 4 % 2 == 1) ≡ r)
unfolding of_bool
buttons true true true = (refl, refl, refl)
buttons true true false = (refl, refl, refl)
buttons true false true = (refl, refl, refl)
buttons true false false = (refl, refl, refl)
buttons false true true = (refl, refl, refl)
buttons false true false = (refl, refl, refl)
buttons false false true = (refl, refl, refl)
buttons false false false = (refl, refl, refl)

mouse_round_trip :
    (m : MouseEvent) → m.x < 2 ^ 32 → m.y < 2 ^ 32 → mouse_from_event (mouse_to_event m) ≡ m
unfolding mouse_from_event mouse_to_event
mouse_round_trip m hx hy =
    let (l, c, r) = buttons m.left_button m.middle_button m.right_button in
    rw (mod-extend m.x hx, mod-extend m.y hy, l, c, r) refl

character_of_lem :
    (v : ℕ) → (v < 0xD800) ⊎ ((0xE000 ≤ v) × (v < 0x11_0000)) → character_of (v % 2 ^ 32) ≡ v
unfolding character_of
character_of_lem v (inl h) = ground arith
character_of_lem v (inr h) = ground (arith, h.0, h.1)

pressed_lem : (b : Bool) → (ltb 0 (of_bool b) && ltb (of_bool b) (2 ^ 63)) ≡ b
unfolding of_bool
pressed_lem true = refl
pressed_lem false = refl

key_round_trip :
    (k : KeyEvent)
    → (k.character < 0xD800) ⊎ ((0xE000 ≤ k.character) × (k.character < 0x11_0000))
    → k.scancode < 256
    → key_from_event (key_to_event k) ≡ k
unfolding key_from_event key_to_event
key_round_trip k hc hs =
    let s : k.scancode % 256 ≡ k.scancode = omega arith in
    rw (character_of_lem k.character hc, s, pressed_lem k.pressed) refl

-- Every mouse, key and quit event, every event of an unknown code and the null event is read back
-- by `to_option` from the event that it is sent as: coordinates of 32 bits, characters that are
-- Unicode scalar values and scancodes of 8 bits.
pub to_option-to_event : (o : EventOption) → Valid o → to_option (to_event o) ≡ o
unfolding to_option mouse_to_event key_to_event quit_to_event null_event
to_option-to_event (mouse m) h = ap mouse (mouse_round_trip m h.0 h.1)
to_option-to_event (key k) h = ap key (key_round_trip k h.0 h.1)
to_option-to_event quit h = refl
to_option-to_event (unknown e) h = ground (arith, h)
to_option-to_event no_event h = refl
