-- ===== src/Orbital/Window.antt =====
-- Windows, crates/orbital/window.rs, and how far their drawing depends on the font, which is a
-- parameter. A panic is `none`; the title is given by its characters.
pub mod Draw
pub mod Part
use redox.Prelude.{
  ℕ, zero, suc, ◌+◌, ◌-◌, ◌*◌, ◌/◌, ◌%◌, ◌^◌, min, Bool, true, false, ◌&&◌, not, List, [], ◌∷◌,
  ◌++◌, Option, none, some, ◌>>=◌, ltb, leb, if◌then◌else◌, length, get_or,
}
use redox.Prelude.Int.{ℤ, pos, negsuc, ◌+ℤ◌, ◌-ℤ◌, ltb_ℤ, wrap_i32}
use redox.Prelude.Results.{Result, ok, err}
use redox.Graphics.Color.{color}
use redox.Orbital.Image.{Image, from_color, blit, blend, set_roi, as_usize}
use redox.Orbital.Rect.{Rect, rect_new, bottom, leb_ℤ, max_ℤ, intersection, is_empty, offset}

-- `E` is the type of the events that are queued.
pub record Window {ℓ} (E : Type ℓ) : Type ℓ where
  pub x : ℤ
  pub y : ℤ
  pub async : Bool
  pub image : Image
  pub title : List ℕ
  pub events : List E

pub window_new {ℓ} : {E : Type ℓ} → (x y w h : ℤ) → List ℕ → Bool → Window E
window_new x y w h title async = record {
  x = x;
  y = y;
  async = async;
  image = from_color w h (color 0 0 0);
  title = title;
  events = [];
}

is_nil : List ℕ → Bool
is_nil [] = true
is_nil (c ∷ cs) = false

pub negate : ℤ → ℤ
negate a = wrap_i32 (pos 0 -ℤ a)

-- The part `shown` of an image that lies at `at`: copied or blended to the screen.
pub draw_part :
    (Rect → Image → Rect → Image → Option Image) → (at shown : Rect) → Image → Image → Option Image
unfolding negate
draw_part put at shown part screen =
    let drawn : Option Image =
      offset shown (negate at.x) (negate at.y) >>= (λ from. put shown screen from part) in
    if is_empty shown then some screen else drawn

-- One character of the title, at `x`.
pub draw_glyph : Image → ℤ → Rect → Rect → Image → Option Image
unfolding draw_part
draw_glyph glyph x title rect screen = do
  image_rect ← rect_new x (wrap_i32 (title.y +ℤ pos 1)) glyph.w glyph.h
  shown ← intersection rect image_rect
  draw_part blend image_rect shown glyph screen

-- The loop over the characters, up to the place of the button.
pub draw_characters : (ℕ → Image) → List ℕ → (x limit : ℤ) → Rect → Rect → Image → Option Image
unfolding draw_glyph
draw_characters font [] x limit title rect screen = some screen
draw_characters font (c ∷ cs) x limit title rect screen =
    let drawn : Option Image =
      draw_glyph (font c) x title rect screen
      >>= (λ next. draw_characters font cs (wrap_i32 (x +ℤ pos 8)) limit title rect next) in
    if ltb_ℤ x limit then drawn else some screen

module _ {ℓ} {E : Type ℓ} where
  pub window_rect : Window E → Option Rect
  window_rect win = rect_new win.x win.y win.image.w win.image.h

  pub title_rect : Window E → Option Rect
  unfolding is_nil
  title_rect win =
      if is_nil win.title
      then some (record { x = pos 0; y = pos 0; w = pos 0; h = pos 0 })
      else rect_new win.x (wrap_i32 (win.y -ℤ pos 18)) win.image.w (pos 18)

  pub exit_contains : Window E → (x y : ℤ) → Bool
  unfolding is_nil
  exit_contains win x y =
      let right = wrap_i32 (win.x +ℤ win.image.w) in
      not (is_nil win.title)
      && leb_ℤ (max_ℤ win.x (wrap_i32 (right -ℤ pos 10))) x
      && leb_ℤ (wrap_i32 (win.y -ℤ pos 18)) y
      && ltb_ℤ x right
      && ltb_ℤ y win.y

  pub draw : Window E → Rect → Image → Option Image
  unfolding window_rect draw_part
  draw win rect screen = do
    self_rect ← window_rect win
    shown ← intersection self_rect rect
    draw_part blit self_rect shown win.image screen

  -- The background and the characters, then the button where there is room for it.
  pub draw_bar : (ℕ → Image) → Window E → Rect → Bool → (title shown : Rect) → Image → Option Image
  unfolding draw_characters draw_glyph
  draw_bar font win rect focused title shown screen =
      let right = wrap_i32 (win.x +ℤ win.image.w) in
      let start = wrap_i32 (win.x +ℤ pos 2) in
      let button = max_ℤ start (wrap_i32 (right -ℤ pos 10)) in
      set_roi shown (if focused then color 192 192 192 else color 64 64 64) screen
      >>= (λ cleared. draw_characters font win.title start button title rect cleared)
      >>= (λ named.
          if leb_ℤ (wrap_i32 (button +ℤ pos 10)) right
          then draw_glyph (font b'X') button title rect named
          else some named)

  pub draw_title : (ℕ → Image) → Window E → Rect → Bool → Image → Option Image
  unfolding title_rect draw_bar
  draw_title font win rect focused screen = do
    title ← title_rect win
    shown ← intersection rect title
    if is_empty shown then some screen else draw_bar font win rect focused title shown screen

  pub event : E → Window E → Window E
  event e win = record win { events = win.events ++ e ∷ [] }

  -- The loop of `read`, with `room` events to go: those that are read, and those that stay.
  pub read_events : ℕ → List E → List E × List E
  read_events zero events = ([], events)
  read_events (suc room) [] = ([], [])
  read_events (suc room) (e ∷ events) =
      let (taken, left) = read_events room events in (e ∷ taken, left)

  -- `read` into a buffer of `len` bytes, with the size of an event: EINVAL without room for one.
  pub read : (event_size len : ℕ) → Window E → Result ℕ × List E × Window E
  unfolding read_events
  read event_size len win =
      let (taken, left) = read_events (len / event_size) win.events in
      if leb event_size len
      then (ok (length taken * event_size), taken, record win { events = left })
      else (err 22, [], win)

  -- `write` of pixels: as many as the image has, or as there are.
  pub write : List ℕ → Window E → Result ℕ × Window E
  write buf win =
      let len = min win.image.size (length buf) in
      (
        ok len,
        record win {
          image = record win.image {
            pixels = λ p. if ltb p len then get_or buf p 0 else win.image.pixels p;
          };
        },
      )
