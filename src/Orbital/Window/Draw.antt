-- ===== src/Orbital/Window/Draw.antt =====
-- What `draw` of crates/orbital/window.rs puts on the screen.
use redox.Prelude.{
  ℕ, ◌+◌, ◌-◌, ◌*◌, ◌^◌, ◌<◌, ◌≤◌, ◌≡◌, refl, ap, ap₂, ◌∙◌, sym, true, false, ◌&&◌, Option, some,
  ltb, leb, if◌then◌else◌, arith, Bool-cases, inl, inr, Bool,
}
use redox.Prelude.Int.{ℤ, pos, ◌+ℤ◌, wrap_i32, pos_part, neg_part}
use redox.Orbital.Image.{Image, blit}
use redox.Orbital.Image.Blit.{blit_lem}
use redox.Orbital.Image.Rows.{rect_at, image_of, Within}
use redox.Orbital.Rect.{Rect, right, bottom, intersection, offset, is_empty}
use redox.Orbital.Rect.Laws.{intersection_lem, rect_new-pos}
use redox.Orbital.Window.{Window, negate, window_rect, draw_part, draw}
use redox.Orbital.Window.Part.{Part, part_lem}

rect_eq :
    {x y w h x' y' w' h' : ℤ}
    → x ≡ x'
    → y ≡ y'
    → w ≡ w'
    → h ≡ h'
    → Path Rect (record { x = x; y = y; w = w; h = h }) (record { x = x'; y = y'; w = w'; h = h' })
rect_eq p q r s = rw (p, q, r, s) refl

-- The window with an image of its pixels.
abbrev pub with_image {ℓ} : {E : Type ℓ} → Window E → (width height : ℕ) → (ℕ → ℕ) → Window E
with_image win width height pixels = record win { image = image_of width height pixels }

-- A pixel is in a span of the clip, and in that of the window.
abbrev pub shows : ℤ → (size from len at : ℕ) → Bool
shows x size from len at =
    leb from at
    && ltb at (from + len)
    && leb (pos_part x) (at + neg_part x)
    && ltb (at + neg_part x) (pos_part x + size)

-- The numbers are below 2 ^ 29, an i32 can count the pixels of both images, and the clip is on the
-- screen.
pub record OnScreen {ℓ} {E : Type ℓ} (win : Window E) (ww wh cx cy cw ch width height : ℕ)
    : Type 0 where
  pub x_pos : pos_part win.x < 2 ^ 29
  pub x_neg : neg_part win.x < 2 ^ 29
  pub y_pos : pos_part win.y < 2 ^ 29
  pub y_neg : neg_part win.y < 2 ^ 29
  pub sides : (ww < 2 ^ 29) × (wh < 2 ^ 29)
  pub corner : (cx < 2 ^ 29) × (cy < 2 ^ 29)
  pub clip : (cw < 2 ^ 29) × (ch < 2 ^ 29)
  pub window_fits : ww * wh < 2 ^ 31
  pub across : cx + cw ≤ width
  pub down : cy + ch ≤ height
  pub screen_fits : width * height < 2 ^ 31

module _ {ℓ} {E : Type ℓ} (win : Window E) (ww wh cx cy cw ch width height : ℕ)
    (window_pixels pixels : ℕ → ℕ) (on : OnScreen win ww wh cx cy cw ch width height) where
  across : Part win.x ww cx cw
  across = part_lem win.x ww cx cw on.x_pos on.x_neg on.sides.0 on.corner.0 on.clip.0

  down : Part win.y wh cy ch
  down = part_lem win.y wh cy ch on.y_pos on.y_neg on.sides.1 on.corner.1 on.clip.1

  self_rect : Rect
  self_rect = record { x = win.x; y = win.y; w = pos ww; h = pos wh }

  shown : Rect
  shown = rect_at across.left down.left across.common down.common

  shown_lem : intersection self_rect (rect_at cx cy cw ch) ≡ some shown
  unfolding self_rect shown right bottom
  shown_lem =
      intersection_lem self_rect (rect_at cx cy cw ch)
      ∙ ap some (rect_eq across.at down.at across.long down.long)

  moved_rect :
      offset shown (negate win.x) (negate win.y)
      ≡ some (rect_at across.into down.into across.common down.common)
  unfolding shown offset
  moved_rect =
      rect_new-pos (wrap_i32 (pos across.left +ℤ negate win.x))
        (wrap_i32 (pos down.left +ℤ negate win.y)) across.common down.common
      ∙ ap some (rect_eq across.moved down.moved refl refl)

  screen : Image
  screen = image_of width height pixels

  part : Image
  part = image_of ww wh window_pixels

  drawn_part :
      draw (with_image win ww wh window_pixels) (rect_at cx cy cw ch) screen
      ≡ draw_part blit self_rect shown part screen
  unfolding draw window_rect part self_rect
  drawn_part = rw (draw, rect_new-pos win.x win.y ww wh, shown_lem) refl

  -- The pixel that the window has there, in it or not.
  window_pixel : (px py : ℕ) → ℕ
  window_pixel px py =
      window_pixels
        ((py + neg_part win.y - pos_part win.y) * ww + (px + neg_part win.x - pos_part win.x))

  Drawn : (px py : ℕ) → Option Image → Type 0
  Drawn px py result =
      (image : Image) × (result ≡ some image)
      × (image.pixels (py * width + px) ≡ (
          if shows win.x ww cx cw px && shows win.y wh cy ch py
          then window_pixel px py
          else pixels (py * width + px)))

  unshown :
      (px py : ℕ) → is_empty shown ≡ true → Drawn px py (draw_part blit self_rect shown part screen)
  unfolding Drawn draw_part screen is_empty shown
  unshown px py e =
      let nothing : shows win.x ww cx cw px && shows win.y wh cy ch py ≡ false =
        ground (arith, across.spans px, down.spans py) in
      (screen, rw (draw_part, e) refl, rw nothing refl)

  module _ (e : is_empty shown ≡ false) where
    wide : (0 < across.common) × (0 < down.common)
    unfolding is_empty shown
    wide = (ground arith, ground arith)

    on_screen : Within across.left down.left across.common down.common width height
    on_screen = record {
      some_width = wide.0;
      across = omega (arith, across.in_rect wide.0, on.across);
      down = omega (arith, down.in_rect wide.1, on.down);
      fits = on.screen_fits;
    }

    in_window : Within across.into down.into across.common down.common ww wh
    in_window = record {
      some_width = wide.0;
      across = across.in_window wide.0;
      down = down.in_window wide.1;
      fits = on.window_fits;
    }

    -- Where the pixel is in the window.
    index :
        (px py : ℕ)
        → across.left ≤ px
        → down.left ≤ py
        → (py - down.left + down.into) * ww + (px - across.left + across.into)
          ≡ (py + neg_part win.y - pos_part win.y) * ww + (px + neg_part win.x - pos_part win.x)
    index px py le_x le_y =
        let a : px - across.left + across.into ≡ px + neg_part win.x - pos_part win.x =
          omega (arith, across.offsets) in
        let b : py - down.left + down.into ≡ py + neg_part win.y - pos_part win.y =
          omega (arith, down.offsets) in
        ap₂ (λ s t. s * ww + t) b a

    pixel :
        (px py : ℕ)
        → (if leb across.left px
              && ltb px (across.left + across.common)
              && leb down.left py
              && ltb py (down.left + down.common)
            then window_pixels
                ((py - down.left + down.into) * ww + (px - across.left + across.into))
            else pixels (py * width + px))
          ≡ (if shows win.x ww cx cw px && shows win.y wh cy ch py
              then window_pixel px py
              else pixels (py * width + px))
    unfolding window_pixel
    pixel px py =
        let both : leb across.left px
              && ltb px (across.left + across.common)
              && leb down.left py
              && ltb py (down.left + down.common)
            ≡ (shows win.x ww cx cw px && shows win.y wh cy ch py) =
          ground (arith, across.spans px, down.spans py) in
        elim (Bool-cases (
          leb across.left px
          && ltb px (across.left + across.common)
          && leb down.left py
          && ltb py (down.left + down.common))) [
            | inl t ↦
                let le_x : across.left ≤ px = ground arith in
                let le_y : down.left ≤ py = ground arith in
                let t' : (shows win.x ww cx cw px && shows win.y wh cy ch py) ≡ true =
                  sym both ∙ t in
                rw (t, t') (ap window_pixels (index px py le_x le_y))
            | inr f ↦
                let f' : (shows win.x ww cx cw px && shows win.y wh cy ch py) ≡ false =
                  sym both ∙ f in
                rw (f, f') refl
          ]

    drawn : (px py : ℕ) → px < width → Drawn px py (draw_part blit self_rect shown part screen)
    unfolding Drawn draw_part screen part self_rect shown
    drawn px py lt =
        let (image, done, at) =
          blit_lem across.left down.left across.common down.common width height across.into
            down.into ww wh px py window_pixels pixels on_screen in_window lt in
        (image, rw (draw_part, e, moved_rect) done, at ∙ pixel px py)

-- A window drawn within a clip on the screen, neither of them far away or too large for an i32 to
-- count its pixels: `draw` does not panic; a pixel that lies in the clip and in the window is then
-- that of the window's image at the same place of the window, and every other pixel of the screen
-- is as before. The window may reach beyond the screen on every side.
pub draw_lem {ℓ} :
    {E : Type ℓ} (win : Window E) (ww wh cx cy cw ch width height px py : ℕ)
    (window_pixels pixels : ℕ → ℕ)
    → OnScreen win ww wh cx cy cw ch width height
    → px < width
    → (image : Image) × (draw
          (with_image win ww wh window_pixels)
          (rect_at cx cy cw ch)
          (image_of width height pixels)
        ≡ some image)
      × (image.pixels (py * width + px) ≡ (
          if shows win.x ww cx cw px && shows win.y wh cy ch py
          then window_pixels
              ((py + neg_part win.y - pos_part win.y) * ww + (px + neg_part win.x - pos_part win.x))
          else pixels (py * width + px)))
unfolding Drawn screen window_pixel
draw_lem win ww wh cx cy cw ch width height px py window_pixels pixels on lt =
    let same = drawn_part win ww wh cx cy cw ch width height window_pixels pixels on in
    elim (Bool-cases
      (is_empty (shown win ww wh cx cy cw ch width height window_pixels pixels on))) [
        | inl t ↦
            let (image, done, at) =
              unshown win ww wh cx cy cw ch width height window_pixels pixels on px py t in
            (image, same ∙ done, at)
        | inr f ↦
            let (image, done, at) =
              drawn win ww wh cx cy cw ch width height window_pixels pixels on f px py lt in
            (image, same ∙ done, at)
      ]
