-- ===== src/Env/Console/Screen/Cursor.antt =====
-- Where the cursor of kernel/env/console.rs is after a character.
use native.Mathlib.Nat.{mod-eq_of_lt, mod-eq-sub-mod}
use mathlib.Core.Path.{subst}
use redox.Prelude.{
  ℕ, zero, suc, ◌+◌, ◌-◌, ◌%◌, ◌<◌, ◌≤◌, ◌≡◌, ◌∙◌, refl, sym, ap, Bool-cases, Option-cases,
  ltb-false, ltb→lt, leb-false, inl, inr, ltb, leb, ◌==◌, if◌then◌else◌, if_both, arith,
}
use redox.Graphics.Display.{Display, scroll, rect, char}
use redox.Graphics.Display.Size.{SameSize, rect-SameSize, scroll-SameSize, char-SameSize}
use redox.Env.Console.{Console, on_display}
use redox.Env.Console.Screen.{scroll_up, draw_cell, wrap_line, dimensions, settle, print, character}

-- A screen with room for a line, far from the largest usize.
pub record Screen (modulus width height : ℕ) : Type 0 where
  pub wide : 1 ≤ width
  pub high : 16 ≤ height
  pub width_fits : width + 80 ≤ modulus
  pub height_fits : height + 80 ≤ modulus

-- The cursor is at the start of a line of text, and so far from the largest usize.
pub record InRange (modulus : ℕ) (c : Console) : Type 0 where
  pub x_fits : c.point_x + 80 ≤ modulus
  pub y_fits : c.point_y + 80 ≤ modulus
  pub lines : c.point_y % 16 ≡ 0

pub record OnScreen (width height : ℕ) (c : Console) : Type 0 where
  pub x_inside : c.point_x < width
  pub y_inside : c.point_y + 16 ≤ height
  pub lines : c.point_y % 16 ≡ 0

pub dimensions-on_display :
    (f : Display → Display) (c : Console)
    → ((d : Display) → SameSize d (f d))
    → dimensions (on_display f c).display ≡ dimensions c.display
unfolding on_display dimensions
dimensions-on_display f c same = elim (Option-cases c.display) [
  | inl e ↦ rw (on_display, e) refl
  | inr (d, e) ↦ let (w, h) = same d in rw (on_display, e, w, h) refl
]

dimensions-draw_cell :
    (modulus color : ℕ) (c : Console)
    → dimensions (draw_cell modulus color c).display ≡ dimensions c.display
unfolding draw_cell
dimensions-draw_cell modulus color c =
    dimensions-on_display (rect modulus c.point_x c.point_y 8 16 color) c
      (rect-SameSize modulus c.point_x c.point_y 8 16 color)

module _ (modulus width height : ℕ) (s : Screen modulus width height) where
  line_up : (y : ℕ) → y < modulus → 16 ≤ y → (y + modulus - 16) % modulus ≡ y - 16
  line_up y lt le =
      let fits : modulus ≤ y + modulus - 16 = omega arith in
      let e : y + modulus - 16 - modulus ≡ y - 16 = omega arith in
      mod-eq-sub-mod fits ∙ ap (λ n. n % modulus) e ∙ mod-eq_of_lt (omega arith)

  -- The fuel is enough, where the cursor is at the start of a line.
  scroll_up-OnScreen :
      (fuel : ℕ) (c : Console)
      → c.point_y < fuel
      → c.point_x < width
      → c.point_y + 16 < modulus
      → c.point_y % 16 ≡ 0
      → let c' = scroll_up modulus fuel height c in
        OnScreen width height c' × (dimensions c'.display ≡ dimensions c.display)
  unfolding scroll_up on_display
  scroll_up-OnScreen zero c h x y lines = absurd (omega arith)
  scroll_up-OnScreen (suc fuel) c h x y lines =
      let next : (c.point_y + 16) % modulus ≡ c.point_y + 16 = mod-eq_of_lt y in
      elim (Bool-cases (ltb height (c.point_y + 16))) [
        | inr f ↦
            rw (scroll_up, next, f)
              (
                record {
                  x_inside = x;
                  y_inside = ltb-false height (c.point_y + 16) f;
                  lines = lines;
                },
                refl,
              )
        | inl t ↦
            let high = s.high in
            let below = ltb→lt height (c.point_y + 16) t in
            let enough : 16 ≤ c.point_y = omega arith in
            let up = line_up c.point_y (omega arith) enough in
            let c1 = on_display (scroll modulus 16 c.background) c in
            let c' : Console = record c1 { point_y = c.point_y - 16 } in
            let (on, same) =
              scroll_up-OnScreen fuel c' (omega arith) x (omega arith) (omega arith) in
            rw (scroll_up, next, t, up)
              (
                on,
                same
                    ∙ dimensions-on_display (scroll modulus 16 c.background) c
                        (scroll-SameSize modulus 16 c.background),
              )
      ]

  draw_cell-OnScreen :
      (color : ℕ) (c : Console)
      → OnScreen width height c
      → OnScreen width height (draw_cell modulus color c)
  unfolding draw_cell on_display
  draw_cell-OnScreen color c h = record {
    x_inside = h.x_inside;
    y_inside = h.y_inside;
    lines = h.lines;
  }

  -- What `settle` needs.
  Settles : Console → Type 0
  Settles c = (c.point_y + 40 ≤ modulus) × (c.point_y % 16 ≡ 0)

  wrap_line_lem :
      (c : Console)
      → Settles c
      → let c' = wrap_line modulus width c in
        (c'.point_x < width)
        × (c'.point_y + 16 < modulus)
        × (c'.point_y % 16 ≡ 0)
        × (dimensions c'.display ≡ dimensions c.display)
  unfolding wrap_line Settles
  wrap_line_lem c (y, lines) =
      let wide = s.wide in
      let next : (c.point_y + 16) % modulus ≡ c.point_y + 16 = mod-eq_of_lt (omega arith) in
      elim (Bool-cases (leb width c.point_x)) [
        | inl t ↦ rw (wrap_line, t, next) (omega arith, omega arith, omega arith, refl)
        | inr f ↦ rw (wrap_line, f) (leb-false width c.point_x f, omega arith, lines, refl)
      ]

  settle-OnScreen :
      (c : Console)
      → Settles c
      → let c' = settle modulus width height c in
        OnScreen width height c' × (dimensions c'.display ≡ dimensions c.display)
  unfolding settle
  settle-OnScreen c h =
      let c1 = wrap_line modulus width c in
      let (x, y, lines, same) = wrap_line_lem c h in
      let (on, same') = scroll_up-OnScreen (c1.point_y + 1) c1 (omega arith) x y lines in
      let c2 = scroll_up modulus (c1.point_y + 1) height c1 in
      (
        draw_cell-OnScreen c2.foreground c2 on,
        dimensions-draw_cell modulus c2.foreground c2 ∙ same' ∙ same,
      )

  module _ (font : ℕ → ℕ) where
    print-Settles :
        (ch : ℕ) (c : Console)
        → InRange modulus c
        → Settles (print modulus font ch c)
          × (dimensions (print modulus font ch c).display ≡ dimensions c.display)
    unfolding print Settles on_display
    print-Settles ch c h =
        let P : Console → Type 0 =
          λ c'. Settles c' × (dimensions c'.display ≡ dimensions c.display) in
        let y = h.y_fits in
        let lines = h.lines in
        let next : (c.point_y + 16) % modulus ≡ c.point_y + 16 = mod-eq_of_lt (omega arith) in
        let stays : (c.point_y + 40 ≤ modulus) × (c.point_y % 16 ≡ 0) = (omega arith, lines) in
        let x = if leb 8 c.point_x then c.point_x - 8 else c.point_x in
        if_both P (ch == 0) (stays, refl)
          (if_both P (ch == 0x1B) (stays, refl)
            (if_both P (ch == 0x0A) ((rw next (omega arith), rw next (omega arith)), refl)
              (if_both P (ch == 0x09) (stays, refl)
                (if_both P (ch == 0x0D) (stays, refl)
                  (if_both P (ch == 0x08)
                    (stays, dimensions-draw_cell modulus c.background (record c { point_x = x }))
                    (
                      stays,
                      dimensions-on_display (char modulus font c.point_x c.point_y ch c.foreground)
                          c (char-SameSize modulus font c.point_x c.point_y ch c.foreground),
                    ))))))

    character_lem :
        (ch : ℕ) (c : Console)
        → dimensions c.display ≡ (width, height)
        → character modulus font ch c
          ≡ settle modulus width height (print modulus font ch (draw_cell modulus c.background c))
    unfolding character
    character_lem ch c size =
        let c1 = print modulus font ch (draw_cell modulus c.background c) in
        ap {A = ℕ × ℕ} (λ d. settle modulus d.0 d.1 c1) size

    -- On a screen with room for a line, after a character the cursor is on the screen and at the
    -- start of a line of text, and the dimensions are as before, if it was at the start of a line, on
    -- the screen or beyond, with both coordinates 80 short of the largest usize: the loop that scrolls
    -- ends.
    pub character-OnScreen :
        (ch : ℕ) (c : Console)
        → InRange modulus c
        → dimensions c.display ≡ (width, height)
        → let c' = character modulus font ch c in
          OnScreen width height c' × (dimensions c'.display ≡ (width, height))
    unfolding draw_cell on_display
    character-OnScreen ch c h size =
        let c1 = draw_cell modulus c.background c in
        let h1 : InRange modulus c1 = record {
          x_fits = h.x_fits;
          y_fits = h.y_fits;
          lines = h.lines;
        } in
        let (ready, same) = print-Settles ch c1 h1 in
        let (on, same') = settle-OnScreen (print modulus font ch c1) ready in
        subst (λ c'. OnScreen width height c' × (dimensions c'.display ≡ (width, height)))
          (sym (character_lem ch c size))
          (on, same' ∙ same ∙ dimensions-draw_cell modulus c.background c ∙ size)
