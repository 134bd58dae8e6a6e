-- ===== src/Env/Console/Screen.antt =====
-- The characters that the console of kernel/env/console.rs shows, and the cursor.
pub mod Cursor
pub mod Kept
use redox.Prelude.{
  ℕ, zero, suc, ◌+◌, ◌-◌, ◌*◌, ◌/◌, ◌%◌, Bool, true, false, ◌&&◌, List, [], ◌∷◌, ◌++◌, Option, none,
  some, ltb, leb, ◌==◌, if◌then◌else◌,
}
use redox.Graphics.Display.{Display, scroll, rect, char}
use redox.Env.Console.{Console, on_display}

unfoldable pub dimensions : Option Display → ℕ × ℕ
dimensions none = (80, 30)
dimensions (some d) = (d.width, d.height)

module _ (modulus : ℕ) where
  -- `while self.point_y + 16 > height`, on fuel.
  pub scroll_up : ℕ → ℕ → Console → Console
  unfolding on_display
  scroll_up zero height c = c
  scroll_up (suc fuel) height c = elim (ltb height ((c.point_y + 16) % modulus)) [
    | true ↦
        let c' = on_display (scroll modulus 16 c.background) c in
        scroll_up fuel height (record c' { point_y = (c.point_y + modulus - 16) % modulus })
    | false ↦ c
  ]

  -- The cell at the cursor is drawn in a color.
  pub draw_cell : ℕ → Console → Console
  unfolding on_display
  draw_cell color c = on_display (rect modulus c.point_x c.point_y 8 16 color) c

  -- The end of a line of the screen.
  pub wrap_line : ℕ → Console → Console
  wrap_line width c =
      if leb width c.point_x
      then record c { point_x = 0; point_y = (c.point_y + 16) % modulus }
      else c

  -- The end of `character`: the cursor is moved to a line of the screen and drawn.
  pub settle : ℕ → ℕ → Console → Console
  unfolding scroll_up draw_cell wrap_line
  settle width height c =
      let c1 = wrap_line width c in
      let c2 = scroll_up (c1.point_y + 1) height c1 in draw_cell c2.foreground c2

  module _ (font : ℕ → ℕ) where
    -- The arms of `character`.
    pub print : ℕ → Console → Console
    unfolding on_display draw_cell
    print ch c =
        if ch == 0
        then c
        else if ch == 0x1B
        then record c { escape = true }
        else if ch == 0x0A
        then record c { point_x = 0; point_y = (c.point_y + 16) % modulus; redraw = true }
        else if ch == 0x09
        then record c { point_x = (c.point_x / 64 + 1) * 64 % modulus }
        else if ch == 0x0D
        then record c { point_x = 0 }
        else if ch == 0x08
        then (let x = if leb 8 c.point_x then c.point_x - 8 else c.point_x in
            on_display (rect modulus x c.point_y 8 16 c.background) (record c { point_x = x }))
        else record (on_display (char modulus font c.point_x c.point_y ch c.foreground) c) {
          point_x = (c.point_x + 8) % modulus;
        }

    unfoldable pub character : ℕ → Console → Console
    unfolding dimensions settle print draw_cell
    character ch c =
        let (width, height) = dimensions c.display in
        settle width height (print ch (draw_cell c.background c))
