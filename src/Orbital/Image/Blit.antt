-- ===== src/Orbital/Image/Blit.antt =====
-- What `blit` of crates/orbital/image.rs copies.
use redox.Prelude.{
  ℕ, zero, suc, ◌+◌, ◌-◌, ◌*◌, ◌<◌, ◌≤◌, ◌≡◌, refl, ap, ◌∙◌, sym, min, true, ◌&&◌, some, ltb, leb,
  if◌then◌else◌, arith, dec_lt, Bool-cases, inl, inr, subst,
}
use redox.Orbital.Image.{Image, copy_row, blit_rows, blit}
use redox.Orbital.Image.Rows.{rect_at, image_of, Within, mul_mono, row_lem}

-- The rows from `i` on, of `n`: a pixel of theirs is that of the other image, at the same place of
-- the other rectangle; all others stay.
pub placed :
    (x y w n i width other_x other_y other_width px py : ℕ) → (other_pixels pixels : ℕ → ℕ) → ℕ
placed x y w n i width other_x other_y other_width px py other_pixels pixels =
    if leb x px && ltb px (x + w) && leb (y + i) py && ltb py (y + i + n)
    then other_pixels ((py - y + other_y) * other_width + (px - x + other_x))
    else pixels (py * width + px)

-- A pixel in the row that is copied.
copied_here :
    (x y w i width other_x other_y other_width px : ℕ) (other_pixels pixels : ℕ → ℕ)
    → let to = (y + i) * width + x in
      let from = (other_y + i) * other_width + other_x in
      let p = (y + i) * width + px in
      (if leb to p && ltb p (to + w) then other_pixels (from + (p - to)) else pixels p)
      ≡ placed x y w 1 i width other_x other_y other_width px (y + i) other_pixels pixels
unfolding placed
copied_here x y w i width other_x other_y other_width px other_pixels pixels =
    let to = (y + i) * width + x in
    let from = (other_y + i) * other_width + other_x in
    let p = (y + i) * width + px in
    elim (Bool-cases (leb x px && ltb px (x + w))) [
      | inl t ↦
          let here : leb to p && ltb p (to + w) ≡ true = ground arith in
          let there : leb x px && ltb px (x + w) && leb (y + i) (y + i) && ltb (y + i) (y + i + 1)
              ≡ true =
            ground arith in
          let ge : x ≤ px = ground arith in
          let line : y + i - y + other_y ≡ other_y + i = omega arith in
          let at : from + (p - to) ≡ (y + i - y + other_y) * other_width + (px - x + other_x) =
            omega (arith, ap (λ k. k * other_width) line, ge) in
          rw (here, there) (ap other_pixels at)
      | inr f ↦ ground arith
    ]

-- One row is copied.
copied_pixel :
    (x y w i width other_x other_y other_width px py : ℕ) (other_pixels pixels : ℕ → ℕ)
    → px < width
    → x + w ≤ width
    → let to = (y + i) * width + x in
      let from = (other_y + i) * other_width + other_x in
      let p = py * width + px in
      (if leb to p && ltb p (to + w) then other_pixels (from + (p - to)) else pixels p)
      ≡ placed x y w 1 i width other_x other_y other_width px py other_pixels pixels
unfolding placed
copied_pixel x y w i width other_x other_y other_width px py other_pixels pixels lt within =
    elim (dec_lt py (y + i)) [
      | yes above ↦ let m = mul_mono py (y + i) width above in ground arith
      | no ge ↦ elim (dec_lt (y + i) py) [
        | yes below ↦ let m = mul_mono (y + i) py width below in ground arith
        | no le ↦
            let same : py ≡ y + i = omega arith in
            subst
              (λ q.
                (if leb ((y + i) * width + x) (q * width + px)
                    && ltb (q * width + px) ((y + i) * width + x + w)
                  then other_pixels (
                      (other_y + i) * other_width
                      + other_x
                      + (q * width + px - ((y + i) * width + x)))
                  else pixels (q * width + px))
                ≡ placed x y w 1 i width other_x other_y other_width px q other_pixels pixels)
              (sym same)
              (copied_here x y w i width other_x other_y other_width px other_pixels pixels)
      ]
    ]

-- The rows behind the first of them, and the first.
join :
    (x y w n i px py there here : ℕ)
    → (if leb x px && ltb px (x + w) && leb (y + (i + 1)) py && ltb py (y + (i + 1) + n)
        then there
        else (if leb x px && ltb px (x + w) && leb (y + i) py && ltb py (y + i + 1)
            then there
            else here))
      ≡ (if leb x px && ltb px (x + w) && leb (y + i) py && ltb py (y + i + suc n)
          then there
          else here)
join x y w n i px py there here = ground arith

module _ (x y w h width height : ℕ) (inside : Within x y w h width height)
    (other_x other_y other_width other_height : ℕ) (other_pixels : ℕ → ℕ)
    (other_inside : Within other_x other_y w h other_width other_height) where
  -- The pixels after one row.
  after_row : (i : ℕ) → (ℕ → ℕ) → ℕ → ℕ
  after_row i pixels p =
      let to = (y + i) * width + x in
      let from = (other_y + i) * other_width + other_x in
      if leb to p && ltb p (to + w) then other_pixels (from + (p - to)) else pixels p

  one_row :
      (n i : ℕ) (pixels : ℕ → ℕ)
      → i < h
      → blit_rows
          (suc n)
          i
          (rect_at x y w h)
          (rect_at other_x other_y w h)
          (image_of other_width other_height other_pixels)
          (image_of width height pixels)
        ≡ blit_rows n
            (i + 1)
            (rect_at x y w h)
            (rect_at other_x other_y w h)
            (image_of other_width other_height other_pixels)
            (image_of width height (after_row i pixels))
  unfolding blit_rows copy_row after_row
  one_row n i pixels lt =
      let t : ltb i h ≡ true = ground arith in
      let m : min w w ≡ w = omega arith in
      rw
        (
          blit_rows,
          row_lem x y w h width height pixels inside i lt,
          row_lem other_x other_y w h other_width other_height other_pixels other_inside i lt,
          t,
          m,
        )
        refl

  -- `n` rows from row `i` on.
  rows_lem :
      (n i px py : ℕ) (pixels : ℕ → ℕ)
      → i + n ≡ h
      → px < width
      → (image : Image) × (blit_rows n i
            (rect_at x y w h)
            (rect_at other_x other_y w h)
            (image_of other_width other_height other_pixels)
            (image_of width height pixels)
          ≡ some image)
        × (image.pixels (py * width + px)
            ≡ placed x y w n i width other_x other_y other_width px py other_pixels pixels)
  unfolding blit_rows placed after_row
  rows_lem zero i px py pixels e lt = (image_of width height pixels, refl, ground arith)
  rows_lem (suc n) i px py pixels e lt =
      let (image, done, at) = rows_lem n (i + 1) px py (after_row i pixels) (omega arith) lt in
      let there = other_pixels ((py - y + other_y) * other_width + (px - x + other_x)) in
      let later = leb x px && ltb px (x + w) && leb (y + (i + 1)) py && ltb py (y + (i + 1) + n) in
      let here =
        copied_pixel x y w i width other_x other_y other_width px py other_pixels pixels lt
          inside.across in
      (
        image,
        one_row n i pixels (omega arith) ∙ done,
        at
            ∙ ap {A = ℕ} (λ v. if later then there else v) here
            ∙ join x y w n i px py there (pixels (py * width + px)),
      )

-- From one image to another, each with a rectangle of the same size that is not empty and lies within
-- it, and with fewer than 2 ^ 31 pixels: `blit` does not panic; a pixel of the rectangle is then the
-- pixel of the other image at the same place of the other rectangle, and every other pixel is as
-- before.
pub blit_lem :
    (x y w h width height other_x other_y other_width other_height px py : ℕ)
    (other_pixels pixels : ℕ → ℕ)
    → Within x y w h width height
    → Within other_x other_y w h other_width other_height
    → px < width
    → (image : Image) × (blit
          (rect_at x y w h)
          (image_of width height pixels)
          (rect_at other_x other_y w h)
          (image_of other_width other_height other_pixels)
        ≡ some image)
      × (image.pixels (py * width + px) ≡ (
          if leb x px && ltb px (x + w) && leb y py && ltb py (y + h)
          then other_pixels ((py - y + other_y) * other_width + (px - x + other_x))
          else pixels (py * width + px)))
unfolding blit placed
blit_lem x y w h width height other_x other_y other_width other_height px py other_pixels pixels
      inside other_inside lt =
    let (image, done, at) =
      rows_lem x y w h width height inside other_x other_y other_width other_height other_pixels
        other_inside h 0 px py pixels (omega arith) lt in
    let y0 : y + 0 ≡ y = omega arith in (image, done, at ∙ rw (placed, y0) refl)
