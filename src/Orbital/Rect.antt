-- ===== src/Orbital/Rect.antt =====
-- Rectangles of the window server, crates/orbital/rect.rs, in i32. A failed assertion is `none`.
pub mod Laws
use redox.Prelude.{
  ℕ, ◌+◌, Bool, true, false, ◌&&◌, ◌||◌, not, Option, none, some, ltb, ◌==◌, if◌then◌else◌,
}
use redox.Prelude.Int.{ℤ, pos, ◌+ℤ◌, ◌-ℤ◌, ◌*ℤ◌, ltb_ℤ, wrap_i32, pos_part, neg_part}

pub record Rect : Type 0 where
  pub x : ℤ
  pub y : ℤ
  pub w : ℤ
  pub h : ℤ

-- `<=` on i32
abbrev pub leb_ℤ : ℤ → ℤ → Bool
leb_ℤ a b = not (ltb_ℤ b a)

abbrev pub max_ℤ : ℤ → ℤ → ℤ
max_ℤ a b = if ltb_ℤ b a then a else b

abbrev pub min_ℤ : ℤ → ℤ → ℤ
min_ℤ a b = if ltb_ℤ b a then b else a

pub rect_new : (x y w h : ℤ) → Option Rect
rect_new x y w h =
    if leb_ℤ (pos 0) w && leb_ℤ (pos 0) h
    then some (record { x = x; y = y; w = w; h = h })
    else none

pub area : Rect → ℤ
area r = wrap_i32 (r.w *ℤ r.h)

unfoldable pub right : Rect → ℤ
right r = wrap_i32 (r.x +ℤ r.w)

unfoldable pub bottom : Rect → ℤ
bottom r = wrap_i32 (r.y +ℤ r.h)

pub container : Rect → Rect → Option Rect
unfolding rect_new right bottom
container r other =
    let left = min_ℤ r.x other.x in
    let to_right = max_ℤ (right r) (right other) in
    let top = min_ℤ r.y other.y in
    let to_bottom = max_ℤ (bottom r) (bottom other) in
    if leb_ℤ left to_right && leb_ℤ top to_bottom
    then rect_new left top (wrap_i32 (to_right -ℤ left)) (wrap_i32 (to_bottom -ℤ top))
    else none

pub contains : Rect → (x y : ℤ) → Bool
unfolding right bottom
contains r x y = leb_ℤ r.x x && leb_ℤ x (right r) && leb_ℤ r.y y && leb_ℤ y (bottom r)

pub contains_rect : Rect → Rect → Bool
unfolding right bottom
contains_rect r other =
    leb_ℤ r.x other.x
    && leb_ℤ (right other) (right r)
    && leb_ℤ r.y other.y
    && leb_ℤ (bottom other) (bottom r)

-- No number of an i32 but 0 has two parts that are 0.
unfoldable pub is_zero : ℤ → Bool
is_zero a = pos_part a == 0 && neg_part a == 0

unfoldable pub is_empty : Rect → Bool
unfolding is_zero
is_empty r = is_zero r.w || is_zero r.h

pub intersects : Rect → Rect → Bool
unfolding right bottom
intersects r other = not (
    ltb_ℤ (right other) r.x
    || ltb_ℤ (right r) other.x
    || ltb_ℤ (bottom other) r.y
    || ltb_ℤ (bottom r) other.y)

pub intersection : Rect → Rect → Option Rect
unfolding rect_new right bottom
intersection r other =
    let left = max_ℤ r.x other.x in
    let to_right = min_ℤ (right r) (right other) in
    let top = max_ℤ r.y other.y in
    let to_bottom = min_ℤ (bottom r) (bottom other) in
    rect_new left top (max_ℤ (pos 0) (wrap_i32 (to_right -ℤ left)))
      (max_ℤ (pos 0) (wrap_i32 (to_bottom -ℤ top)))

unfoldable pub offset : Rect → (x y : ℤ) → Option Rect
unfolding rect_new
offset r x y = rect_new (wrap_i32 (r.x +ℤ x)) (wrap_i32 (r.y +ℤ y)) r.w r.h
