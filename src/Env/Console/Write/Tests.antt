-- ===== src/Env/Console/Write/Tests.antt =====
-- The console without a display, on concrete input.
use redox.Prelude.{ℕ, ◌≡◌, ◌^◌, refl, true, false, List, [], ◌∷◌, ◌++◌, none, arith}
use redox.Common.Event.{KeyEvent}
use redox.Graphics.Color.{color}
use redox.Env.Console.{Console, new}
use redox.Env.Console.Screen.{dimensions, character}
use redox.Env.Console.Screen.Cursor.{Screen, OnScreen, character-OnScreen}
use redox.Env.Console.Write.{pop, write}
use redox.Env.Console.Write.Text.{NoEscape, Plain, write-Plain}
use redox.Env.Console.Write.Sequence.{join}
use redox.Env.Console.Write.Color.{decimal, write-true_color}
use redox.Env.Console.Write.Line.{edit_all, Edits, NoEscapeKeys, press_all, press_all-Edits}

-- A font without dots.
abbrev font : ℕ → ℕ
font n = 0

screen : Screen (2 ^ 64) 80 30
screen = record {
  wide = omega arith;
  high = omega arith;
  width_fits = omega arith;
  height_fits = omega arith;
}

-- Far below the screen, where a control sequence may have moved the cursor.
abbrev below : Console
below = record (new none) { point_x = 640; point_y = 4_800 }

character-OnScreen_example :
    let c' = character (2 ^ 64) font 65 below in
    OnScreen 80 30 c' × (dimensions c'.display ≡ (80, 30))
unfolding dimensions new
character-OnScreen_example =
    character-OnScreen (2 ^ 64) 80 30 screen font 65 below
      (record { x_fits = omega arith; y_fits = omega arith; lines = refl }) refl

abbrev text : List ℕ
text = 72 ∷ 105 ∷ 9 ∷ 10 ∷ 8 ∷ []

text-NoEscape : NoEscape text
unfolding NoEscape
text-NoEscape = (
  λ e. absurd (omega arith),
  (
    λ e. absurd (omega arith),
    (λ e. absurd (omega arith), (λ e. absurd (omega arith), (λ e. absurd (omega arith), tt))),
  ),
)

write-Plain_example : Plain 80 30 (write (2 ^ 64) font text (new none))
unfolding new dimensions
write-Plain_example = write-Plain (2 ^ 64) 80 30 screen font text (new none) text-NoEscape (record {
  outside = refl;
  cursor = record { x_inside = omega arith; y_inside = omega arith; lines = refl };
  size = refl;
})

write-true_color_example :
    let params = decimal 2 ∷ decimal 255 ∷ decimal 99 ∷ decimal 7 ∷ [] in
    let c' = write (2 ^ 64) font (0x1B ∷ 0x5B ∷ join (decimal 38) params ++ 0x6D ∷ []) (new none) in
    (c'.foreground ≡ color 255 99 7)
    × (c'.background ≡ (new none).background)
    × (c'.escape ≡ false)
    × (c'.escape_sequence ≡ false)
    × (c'.sequence ≡ [])
unfolding new
write-true_color_example =
    write-true_color (2 ^ 64) font 255 99 7 (new none) (omega arith) (omega arith) (omega arith)
      (omega arith) refl refl refl

abbrev key_of : ℕ → KeyEvent
key_of ch = record { character = ch; scancode = 0x1E; pressed = true }

-- Two characters, a backspace and a newline.
abbrev keys : List KeyEvent
keys =
    key_of 108
    ∷ key_of 109
    ∷ record { character = 8; scancode = 0x0E; pressed = true }
    ∷ key_of 10
    ∷ []

keys-NoEscapeKeys : NoEscapeKeys keys
unfolding NoEscapeKeys
keys-NoEscapeKeys = (
  λ e. absurd (omega arith),
  (λ e. absurd (omega arith), (λ e. absurd (omega arith), (λ e. absurd (omega arith), tt))),
)

keys-sent : edit_all keys ([], []) ≡ ([], (108 ∷ 10 ∷ []) ∷ [])
unfolding edit_all pop
keys-sent = refl

press_all-Edits_example : Edits (edit_all keys ([], [])) (press_all (2 ^ 64) font keys (new none))
unfolding new
press_all-Edits_example =
    press_all-Edits (2 ^ 64) font keys (new none) ([], []) keys-NoEscapeKeys
      (record { cooked = refl; outside = refl; line = refl; lines = refl })
