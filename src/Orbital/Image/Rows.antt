-- ===== src/Orbital/Image/Rows.antt =====
-- Where the rows of a region lie, crates/orbital/image.rs.
use redox.Prelude.{
  ℕ, zero, suc, ◌+◌, ◌-◌, ◌*◌, ◌^◌, ◌<◌, ◌≤◌, ◌≡◌, refl, ap, ◌∙◌, true, ◌&&◌, some, leb, arith,
  dec_lt,
}
use redox.Prelude.Int.{pos, ◌+ℤ◌, ◌*ℤ◌, wrap_i32, wrap_i32_of_IsI32}
use redox.Orbital.Rect.{Rect}
use redox.Orbital.Image.{Image, as_usize, row_start, row_slice, row}

-- A rectangle at a place that is not negative.
abbrev pub rect_at : (x y w h : ℕ) → Rect
rect_at x y w h = record { x = pos x; y = pos y; w = pos w; h = pos h }

-- An image with its pixels.
abbrev pub image_of : (width height : ℕ) → (ℕ → ℕ) → Image
image_of width height pixels = record {
  w = pos width;
  h = pos height;
  pixels = pixels;
  size = width * height;
}

-- The rectangle is not empty, and lies within an image whose pixels an i32 can count.
pub record Within (x y w h width height : ℕ) : Type 0 where
  pub some_width : 0 < w
  pub across : x + w ≤ width
  pub down : y + h ≤ height
  pub fits : width * height < 2 ^ 31

pub mul_mono : (a b n : ℕ) → a < b → a * n + n ≤ b * n
mul_mono a zero n h = absurd (omega arith)
mul_mono a (suc b) n h =
    let e : suc b * n ≡ b * n + n = omega arith in
    elim (dec_lt a b) [
      | yes lt ↦ omega (arith, e, mul_mono a b n lt)
      | no ge ↦ let same : a ≡ b = omega arith in omega (arith, e, ap (λ k. k * n) same)
    ]

pos_add : (a b : ℕ) → pos a +ℤ pos b ≡ pos (a + b)
unfolding ◌+ℤ◌
pos_add a b = ground arith

pos_mul : (a b : ℕ) → pos a *ℤ pos b ≡ pos (a * b)
unfolding ◌*ℤ◌
pos_mul a b = ground arith

wrap_pos : (n : ℕ) → n < 2 ^ 31 → wrap_i32 (pos n) ≡ pos n
wrap_pos n h = wrap_i32_of_IsI32 (pos n) (omega arith, omega arith)

row_slice_lem :
    (start w size : ℕ)
    → start + w ≤ size
    → size < 2 ^ 31
    → row_slice (pos start) (pos w) size ≡ some (start, w)
unfolding row_slice as_usize
row_slice_lem start w size within fits =
    let t : leb start (start + w) && leb (start + w) size ≡ true = ground arith in
    let d : start + w - start ≡ w = omega arith in
    rw (row_slice, pos_add start w, wrap_pos (start + w) (omega arith), t, d) refl

module _ (x y w h width height : ℕ) (pixels : ℕ → ℕ) (inside : Within x y w h width height) where
  -- Where row `i` begins, and that it ends within the image.
  bounds :
      (i : ℕ)
      → i < h
      → ((y + i) * width + x + w ≤ width * height)
        × (y + i < 2 ^ 31)
        × ((y + i) * width ≤ width * height)
  bounds i lt =
      let below = mul_mono (y + i) height width (omega arith) in
      let tall : height ≤ width * height = omega (arith, mul_mono 0 width height (omega arith)) in
      (omega arith, omega arith, omega arith)

  row_start_lem :
      (i : ℕ)
      → i < h
      → row_start (rect_at x y w h) (image_of width height pixels) i ≡ pos ((y + i) * width + x)
  unfolding row_start
  row_start_lem i lt =
      let b = bounds i lt in
      let small : (y + i) * width + x < 2 ^ 31 = omega (arith, inside.fits, inside.some_width) in
      rw
        (
          pos_add y i,
          wrap_pos (y + i) b.1,
          pos_mul (y + i) width,
          wrap_pos ((y + i) * width) (omega (arith, inside.fits)),
          pos_add ((y + i) * width) x,
          wrap_pos ((y + i) * width + x) small,
        )
        refl

  pub row_lem :
      (i : ℕ)
      → i < h
      → row (rect_at x y w h) (image_of width height pixels) i ≡ some ((y + i) * width + x, w)
  unfolding row
  row_lem i lt =
      let b = bounds i lt in
      let start = (y + i) * width + x in
      ap (λ s. row_slice s (pos w) (width * height)) (row_start_lem i lt)
      ∙ row_slice_lem start w (width * height) b.0 inside.fits
