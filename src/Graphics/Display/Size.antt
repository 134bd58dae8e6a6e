-- ===== src/Graphics/Display/Size.antt =====
-- Drawing leaves the dimensions of the display of kernel/graphics/display.rs.
use redox.Prelude.{ℕ, ◌+◌, ◌%◌, ◌≡◌, refl, ◌&&◌, Bool-cases, inl, inr, ltb, leb}
use redox.Graphics.Display.{Display, scroll, rect, char, fill, flip}

abbrev pub SameSize : Display → Display → Type 0
SameSize d d' = (d'.width ≡ d.width) × (d'.height ≡ d.height)

pub fill-SameSize : (color : ℕ) (d : Display) → SameSize d (fill color d)
unfolding fill
fill-SameSize color d = (refl, refl)

pub flip-SameSize : (d : Display) → SameSize d (flip d)
unfolding flip
flip-SameSize d = (refl, refl)

module _ (modulus : ℕ) where
  pub rect-SameSize : (x y w h color : ℕ) (d : Display) → SameSize d (rect modulus x y w h color d)
  unfolding rect
  rect-SameSize x y w h color d = (refl, refl)

  pub scroll-SameSize : (rows color : ℕ) (d : Display) → SameSize d (scroll modulus rows color d)
  unfolding scroll
  scroll-SameSize rows color d = elim (Bool-cases (ltb 0 rows && ltb rows d.height)) [
    | inl t ↦ (rw (scroll, t) refl, rw (scroll, t) refl)
    | inr f ↦ (rw (scroll, f) refl, rw (scroll, f) refl)
  ]

  pub char-SameSize :
      (font : ℕ → ℕ) (x y character color : ℕ) (d : Display)
      → SameSize d (char modulus font x y character color d)
  unfolding char
  char-SameSize font x y character color d =
      elim (Bool-cases (leb ((x + 8) % modulus) d.width && leb ((y + 16) % modulus) d.height)) [
        | inl t ↦ (rw (char, t) refl, rw (char, t) refl)
        | inr f ↦ (rw (char, f) refl, rw (char, f) refl)
      ]
