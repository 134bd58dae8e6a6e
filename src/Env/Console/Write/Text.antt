-- ===== src/Env/Console/Write/Text.antt =====
-- Text without escape characters, written to the console of kernel/env/console.rs.
use mathlib.Core.Path.{subst}
use redox.Prelude.{
  ℕ, ◌≡◌, ◌≢◌, ◌∙◌, sym, ap, true, false, ◌&&◌, ◌==◌, if◌then◌else◌, if_both, List, [], ◌∷◌, arith,
}
use redox.Graphics.Display.{flip}
use redox.Graphics.Display.Size.{flip-SameSize}
use redox.Env.Console.{Console, on_display, code}
use redox.Env.Console.Screen.{dimensions, character}
use redox.Env.Console.Screen.Cursor.{Screen, OnScreen, dimensions-on_display, character-OnScreen}
use redox.Env.Console.Screen.Kept.{character-core}
use redox.Env.Console.Write.{sent, write_byte, write_bytes, write}

unfoldable pub NoEscape : List ℕ → Type 0
NoEscape [] = Unit
NoEscape (b ∷ bytes) = (b ≢ 0x1B) × NoEscape bytes

-- Outside of an escape sequence, with the cursor on the screen.
pub record Plain (width height : ℕ) (c : Console) : Type 0 where
  pub outside : c.escape ≡ false
  pub cursor : OnScreen width height c
  pub size : dimensions c.display ≡ (width, height)

module _ (modulus : ℕ) (font : ℕ → ℕ) where
  pub write_byte_text :
      (byte : ℕ) (c : Console)
      → c.escape ≡ false
      → write_byte modulus font byte c ≡ sent byte (character modulus font byte c)
  unfolding write_byte
  write_byte_text byte c e =
      ap (λ b. sent byte (if b then code modulus byte c else character modulus font byte c)) e

module _ (modulus width height : ℕ) (s : Screen modulus width height) (font : ℕ → ℕ) where
  sent-Plain : (byte : ℕ) (c : Console) → Plain width height c → Plain width height (sent byte c)
  unfolding sent
  sent-Plain byte c p =
      let cursor = p.cursor in
      record {
        outside = p.outside;
        cursor = record {
          x_inside = cursor.x_inside;
          y_inside = cursor.y_inside;
          lines = cursor.lines;
        };
        size = p.size;
      }

  write_byte-Plain :
      (byte : ℕ) (c : Console)
      → byte ≢ 0x1B
      → Plain width height c
      → Plain width height (write_byte modulus font byte c)
  write_byte-Plain byte c ne p =
      let cursor = p.cursor in
      let x = cursor.x_inside in
      let y = cursor.y_inside in
      let w = s.width_fits in
      let h = s.height_fits in
      let (on, size) =
        character-OnScreen modulus width height s font byte c
          (record { x_fits = omega arith; y_fits = omega arith; lines = cursor.lines }) p.size in
      let (same, e) = character-core modulus font byte c in
      let f : (byte == 0x1B) ≡ false = ground arith in
      subst (Plain width height) (sym (write_byte_text modulus font byte c p.outside)) (
        sent-Plain byte (character modulus font byte c) (record {
          outside = e ∙ ap (λ b. if b then true else c.escape) f ∙ p.outside;
          cursor = on;
          size = size;
        }))

  write_bytes-Plain :
      (bytes : List ℕ) (c : Console)
      → NoEscape bytes
      → Plain width height c
      → Plain width height (write_bytes modulus font bytes c)
  unfolding write_bytes NoEscape
  write_bytes-Plain [] c ne p = p
  write_bytes-Plain (byte ∷ bytes) c (ne, rest) p =
      write_bytes-Plain bytes (write_byte modulus font byte c) rest (write_byte-Plain byte c ne p)

  -- On a screen with room for a line, a write of text without escape characters, begun with the
  -- cursor on the screen and outside of an escape sequence, ends so.
  pub write-Plain :
      (bytes : List ℕ) (c : Console)
      → NoEscape bytes
      → Plain width height c
      → Plain width height (write modulus font bytes c)
  unfolding write on_display
  write-Plain bytes c ne p =
      let c' = write_bytes modulus font bytes c in
      let p' = write_bytes-Plain bytes c ne p in
      let cursor = p'.cursor in
      if_both (Plain width height) (c'.draw && c'.redraw)
        (record {
          outside = p'.outside;
          cursor = record {
            x_inside = cursor.x_inside;
            y_inside = cursor.y_inside;
            lines = cursor.lines;
          };
          size = dimensions-on_display flip c' flip-SameSize ∙ p'.size;
        })
        p'
