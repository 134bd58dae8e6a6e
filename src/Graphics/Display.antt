-- ===== src/Graphics/Display.antt =====
-- kernel/graphics/display.rs: the display, its two areas of memory given by their pixels. `modulus`
-- is the number of values of a usize, and `font` the bytes of the font, which is data.
pub mod Size
use redox.Prelude.{
  ℕ, zero, suc, ◌+◌, ◌-◌, ◌*◌, ◌/◌, ◌%◌, ◌^◌, min, Bool, true, false, ◌&&◌, ltb, leb, ◌==◌,
  if◌then◌else◌,
}

pub record Display : Type 0 where
  pub offscreen : ℕ → ℕ
  pub onscreen : ℕ → ℕ
  pub size : ℕ
  pub width : ℕ
  pub height : ℕ

-- `rep stosd`, from a pixel on.
pub fast_set : (ℕ → ℕ) → (start color len : ℕ) → ℕ → ℕ
fast_set pixels start color len p = if leb start p && ltb p (start + len) then color else pixels p

-- `rep movsb`, to the front from a pixel at or behind it.
pub fast_copy : (ℕ → ℕ) → (ℕ → ℕ) → (offset len : ℕ) → ℕ → ℕ
fast_copy dst src offset len p = if ltb p len then src (offset + p) else dst p

pub fill : ℕ → Display → Display
unfolding fast_set
fill color d = record d { offscreen = fast_set d.offscreen 0 color d.size }

pub flip : Display → Display
unfolding fast_copy
flip d = record d { onscreen = fast_copy d.onscreen d.offscreen 0 d.size }

-- One row of a character: `cols` columns are left.
pub draw_cols : (cols dst bits color : ℕ) → (ℕ → ℕ) → ℕ → ℕ
draw_cols zero dst bits color pixels = pixels
draw_cols (suc cols) dst bits color pixels =
    draw_cols cols dst bits color
      (λ p. if bits / 2 ^ cols % 2 == 1 && (p == dst + (7 - cols)) then color else pixels p)

module _ (modulus : ℕ) where
  -- `rows` is less than the height, so that the offset is within the area.
  pub scroll : ℕ → ℕ → Display → Display
  unfolding fast_set fast_copy
  scroll rows color d =
      if ltb 0 rows && ltb rows d.height
      then (let offset = rows * d.width % modulus in
          let up = fast_copy d.offscreen d.offscreen offset (d.size - offset) in
          record d { offscreen = fast_set up (d.size - offset) color offset })
      else d

  -- The loop of `rect`: the rows from `y` on.
  pub fill_rows : (rows y width start_x color len : ℕ) → (ℕ → ℕ) → ℕ → ℕ
  unfolding fast_set
  fill_rows zero y width start_x color len pixels = pixels
  fill_rows (suc rows) y width start_x color len pixels =
      fill_rows rows (y + 1) width start_x color len
        (fast_set pixels ((y * width + start_x) % modulus) color len)

  pub minus : ℕ → ℕ → ℕ
  minus a b = (a + modulus - b) % modulus

  pub rect : (x y w h color : ℕ) → Display → Display
  unfolding fill_rows minus
  rect x y w h color d =
      let start_y = min (minus d.height 1) y in
      let end_y = min (minus d.height 1) ((y + h) % modulus) in
      let start_x = min (minus d.width 1) x in
      let len = minus (min (minus d.width 1) ((x + w) % modulus)) start_x in
      record d {
        offscreen = fill_rows (end_y - start_y) start_y d.width start_x color len d.offscreen;
      }

  module _ (font : ℕ → ℕ) where
    -- The rows of a character: `rows` are left.
    pub draw_rows : (rows dst width font_i color : ℕ) → (ℕ → ℕ) → ℕ → ℕ
    unfolding draw_cols
    draw_rows zero dst width font_i color pixels = pixels
    draw_rows (suc rows) dst width font_i color pixels =
        draw_rows rows (dst + width) width font_i color
          (draw_cols 8 dst (font (font_i + (15 - rows))) color pixels)

    pub char : (x y character color : ℕ) → Display → Display
    unfolding draw_rows
    char x y character color d =
        if leb ((x + 8) % modulus) d.width && leb ((y + 16) % modulus) d.height
        then record d {
          offscreen =
              draw_rows 16 ((y * d.width + x) % modulus) d.width (16 * character) color d.offscreen;
        }
        else d
