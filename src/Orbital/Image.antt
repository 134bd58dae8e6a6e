-- ===== src/Orbital/Image.antt =====
-- Images of the window server, crates/orbital/image.rs. The pixels of an image are those of an area
-- of memory of `size` of them; a slice that is out of range panics, which is `none`.
pub mod Blit
pub mod Rows
use redox.Prelude.{
  ℕ, zero, suc, ◌+◌, ◌-◌, ◌*◌, ◌/◌, ◌%◌, ◌^◌, min, Bool, true, false, ◌&&◌, Option, none, some, ltb,
  leb, ◌==◌, if◌then◌else◌,
}
use redox.Prelude.Int.{ℤ, pos, negsuc, ◌+ℤ◌, ◌*ℤ◌, wrap_i32, pos_part}
use redox.Orbital.Rect.{Rect}

pub record Image : Type 0 where
  pub w : ℤ
  pub h : ℤ
  pub pixels : ℕ → ℕ
  pub size : ℕ

-- `i32 as usize`
pub as_usize : ℤ → ℕ
as_usize (pos n) = n
as_usize (negsuc n) = 2 ^ 64 - suc n

pub from_color : (width height : ℤ) → ℕ → Image
unfolding as_usize
from_color width height color = record {
  w = width;
  h = height;
  pixels = λ p. color;
  size = as_usize width * as_usize height % 2 ^ 64;
}

-- The slice of row `i` of a region: where it starts, and its length.
pub row_start : Rect → Image → ℕ → ℤ
row_start rect image i = wrap_i32 (wrap_i32 (wrap_i32 (rect.y +ℤ pos i) *ℤ image.w) +ℤ rect.x)

-- `&data[start as usize .. end as usize]` of an image with `size` pixels.
pub row_slice : (start width : ℤ) → ℕ → Option (ℕ × ℕ)
unfolding as_usize
row_slice start width size =
    let from = as_usize start in
    let end = as_usize (wrap_i32 (start +ℤ width)) in
    if leb from end && leb end size then some (from, end - from) else none

pub row : Rect → Image → ℕ → Option (ℕ × ℕ)
unfolding row_start row_slice
row rect image i = row_slice (row_start rect image i) rect.w image.size

-- `fast_copy` between two slices.
pub copy_row : (to from len : ℕ) → Image → Image → Image
copy_row to from len other image = record image {
  pixels =
      λ p. if leb to p && ltb p (to + len) then other.pixels (from + (p - to)) else image.pixels p;
}

-- The loop of `blit`: `n` rows of the region are left, from row `i` on.
pub blit_rows : (n i : ℕ) → Rect → Rect → Image → Image → Option Image
unfolding row copy_row
blit_rows zero i rect other_rect other image = some image
blit_rows (suc n) i rect other_rect other image = elim (row rect image i) [
  | none ↦ none
  | some (to, len) ↦
      let copied : Option Image = elim (row other_rect other i) [
        | none ↦ none
        | some (from, other_len) ↦
            blit_rows n (i + 1) rect other_rect other
              (copy_row to from (min len other_len) other image)
      ] in
      if ltb i (pos_part other_rect.h) then copied else some image
]

pub blit : Rect → Image → Rect → Image → Option Image
unfolding blit_rows
blit rect image other_rect other = blit_rows (pos_part rect.h) 0 rect other_rect other image

-- A pixel over another, by the alpha of the new one; sums of 32 bits.
pub blend_pixel : (old new : ℕ) → ℕ
blend_pixel old new =
    let alpha = new / 2 ^ 24 % 256 in
    let over : ℕ → ℕ → ℕ = λ color a. color % 256 * a / 2 ^ 8 in
    let n_alpha = 255 - alpha in
    let n =
      over (new / 2 ^ 16) alpha * 2 ^ 16 + over (new / 2 ^ 8) alpha * 2 ^ 8 + over new alpha in
    let o =
      over (old / 2 ^ 16) n_alpha * 2 ^ 16
      + over (old / 2 ^ 8) n_alpha * 2 ^ 8
      + over old n_alpha in
    if leb 255 alpha then new else (if ltb 0 alpha then (o + n) % 2 ^ 32 else old)

-- `set` on the row of a region, with the pixel of its color.
pub set_row : (to len color : ℕ) → Image → Image
unfolding blend_pixel
set_row to len color image = record image {
  pixels = λ p.
      if leb to p && ltb p (to + len) then blend_pixel (image.pixels p) color else image.pixels p;
}

pub blend_row : (to from len : ℕ) → Image → Image → Image
unfolding blend_pixel
blend_row to from len other image = record image {
  pixels = λ p.
      if leb to p && ltb p (to + len)
      then blend_pixel (image.pixels p) (other.pixels (from + (p - to)))
      else image.pixels p;
}

pub blend_rows : (n i : ℕ) → Rect → Rect → Image → Image → Option Image
unfolding row blend_row
blend_rows zero i rect other_rect other image = some image
blend_rows (suc n) i rect other_rect other image = elim (row rect image i) [
  | none ↦ none
  | some (to, len) ↦
      let blended : Option Image = elim (row other_rect other i) [
        | none ↦ none
        | some (from, other_len) ↦
            blend_rows n (i + 1) rect other_rect other
              (blend_row to from (min len other_len) other image)
      ] in
      if ltb i (pos_part other_rect.h) then blended else some image
]

pub blend : Rect → Image → Rect → Image → Option Image
unfolding blend_rows
blend rect image other_rect other = blend_rows (pos_part rect.h) 0 rect other_rect other image

pub set_rows : (n i : ℕ) → Rect → ℕ → Image → Option Image
unfolding row set_row
set_rows zero i rect color image = some image
set_rows (suc n) i rect color image = elim (row rect image i) [
  | none ↦ none
  | some (to, len) ↦ set_rows n (i + 1) rect color (set_row to len color image)
]

-- `set`: nothing where the color is transparent, not even the slices are taken.
pub set_roi : Rect → ℕ → Image → Option Image
unfolding set_rows
set_roi rect color image =
    let painted = set_rows (pos_part rect.h) 0 rect color image in
    if ltb 0 (color / 2 ^ 24 % 256) then painted else some image
