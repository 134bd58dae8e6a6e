-- ===== src/Orbital/Tests.antt =====
-- Two rectangles that overlap, and a window that reaches beyond the corner of a screen.
use redox.Prelude.{ℕ, ◌+◌, ◌*◌, ◌≡◌, ◌↔◌, refl, false, [], some, arith}
use redox.Prelude.Int.{pos, negsuc}
use redox.Orbital.Image.{Image}
use redox.Orbital.Image.Rows.{rect_at, image_of}
use redox.Orbital.Rect.{Rect, intersection}
use redox.Orbital.Rect.Laws.{Small, Covers, intersection-Covers}
use redox.Orbital.Window.{Window, draw}
use redox.Orbital.Window.Draw.{OnScreen, with_image, draw_lem}

abbrev left_rect : Rect
left_rect = record { x = negsuc 4; y = pos 0; w = pos 10; h = pos 8 }

abbrev right_rect : Rect
right_rect = record { x = pos 2; y = pos 3; w = pos 20; h = pos 20 }

left_rect-Small : Small left_rect
left_rect-Small = record {
  x_pos = omega arith;
  x_neg = omega arith;
  y_pos = omega arith;
  y_neg = omega arith;
  w_pos = omega arith;
  w_neg = refl;
  h_pos = omega arith;
  h_neg = refl;
}

right_rect-Small : Small right_rect
right_rect-Small = record {
  x_pos = omega arith;
  x_neg = omega arith;
  y_pos = omega arith;
  y_neg = omega arith;
  w_pos = omega arith;
  w_neg = refl;
  h_pos = omega arith;
  h_neg = refl;
}

intersection-Covers_example :
    (r : Rect) × (intersection left_rect right_rect ≡ some r)
    × (Covers r (pos 4) (pos 3)
        ↔ (Covers left_rect (pos 4) (pos 3) × Covers right_rect (pos 4) (pos 3)))
intersection-Covers_example =
    intersection-Covers left_rect right_rect (pos 4) (pos 3) left_rect-Small right_rect-Small

abbrev corner : Window ℕ
corner = record {
  x = negsuc 1;
  y = negsuc 0;
  async = false;
  image = image_of 4 4 (λ p. p);
  title = [];
  events = [];
}

corner-OnScreen : OnScreen corner 4 4 0 0 10 10 10 10
corner-OnScreen = record {
  x_pos = omega arith;
  x_neg = omega arith;
  y_pos = omega arith;
  y_neg = omega arith;
  sides = (omega arith, omega arith);
  corner = (omega arith, omega arith);
  clip = (omega arith, omega arith);
  window_fits = omega arith;
  across = omega arith;
  down = omega arith;
  screen_fits = omega arith;
}

draw_lem_example :
    (image : Image) × (draw
        (with_image corner 4 4 (λ p. p))
        (rect_at 0 0 10 10)
        (image_of 10 10 (λ p. 99))
      ≡ some image)
    × (image.pixels (1 * 10 + 1) ≡ 11)
draw_lem_example =
    draw_lem corner 4 4 0 0 10 10 10 10 1 1 (λ p. p) (λ p. 99) corner-OnScreen (omega arith)
