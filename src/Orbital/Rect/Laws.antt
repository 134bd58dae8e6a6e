-- ===== src/Orbital/Rect/Laws.antt =====
-- What the rectangles of crates/orbital/rect.rs cover.
use redox.Prelude.{
  ℕ, ◌+◌, ◌-◌, ◌^◌, ◌⊎◌, ◌<◌, ◌≤◌, ◌≡◌, refl, ◌↔◌, true, ◌&&◌, some, arith, Bool-cases, inl, inr,
}
use redox.Prelude.Int.{ℤ, pos, ◌+ℤ◌, ◌-ℤ◌, ltb_ℤ, wrap_i32, wrap_i32_of_IsI32, pos_part, neg_part}
use redox.Orbital.Rect.{Rect, rect_new, right, bottom, leb_ℤ, max_ℤ, min_ℤ, intersection}

-- A rectangle whose numbers are below 2 ^ 29, with sides that are not negative.
pub record Small (r : Rect) : Type 0 where
  pub x_pos : pos_part r.x < 2 ^ 29
  pub x_neg : neg_part r.x < 2 ^ 29
  pub y_pos : pos_part r.y < 2 ^ 29
  pub y_neg : neg_part r.y < 2 ^ 29
  pub w_pos : pos_part r.w < 2 ^ 29
  pub w_neg : neg_part r.w ≡ 0
  pub h_pos : pos_part r.h < 2 ^ 29
  pub h_neg : neg_part r.h ≡ 0

-- A pixel is in a span that begins at `from` and has the length `size`.
abbrev pub Spans : (from size at : ℤ) → Type 0
Spans from size at =
    (pos_part from + neg_part at ≤ pos_part at + neg_part from)
    × (pos_part at + neg_part from + neg_part size < pos_part from + pos_part size + neg_part at)

abbrev pub Covers : Rect → (x y : ℤ) → Type 0
Covers r x y = Spans r.x r.w x × Spans r.y r.h y

-- The end of a span does not wrap.
pub end_lem :
    (from size : ℤ)
    → pos_part from < 2 ^ 29
    → neg_part from < 2 ^ 29
    → pos_part size < 2 ^ 29
    → neg_part size ≡ 0
    → (pos_part (wrap_i32 (from +ℤ size)) + neg_part from
        ≡ neg_part (wrap_i32 (from +ℤ size)) + pos_part from + pos_part size)
      × (pos_part (wrap_i32 (from +ℤ size)) < 2 ^ 30)
      × (neg_part (wrap_i32 (from +ℤ size)) < 2 ^ 30)
unfolding ◌+ℤ◌
end_lem from size fp fn sp sn =
    let e : wrap_i32 (from +ℤ size) ≡ from +ℤ size =
      wrap_i32_of_IsI32 (from +ℤ size) (ground arith) in
    rw e (ground arith)

-- A length that is cut off at 0.
pub size_lem :
    (from to : ℤ)
    → pos_part from < 2 ^ 30
    → neg_part from < 2 ^ 30
    → pos_part to < 2 ^ 30
    → neg_part to < 2 ^ 30
    → let size = max_ℤ (pos 0) (wrap_i32 (to -ℤ from)) in
      (pos_part size ≡ pos_part to + neg_part from - (neg_part to + pos_part from))
      × (neg_part size ≡ 0)
unfolding ◌-ℤ◌
size_lem from to fp fn tp tn =
    let e : wrap_i32 (to -ℤ from) ≡ to -ℤ from = wrap_i32_of_IsI32 (to -ℤ from) (ground arith) in
    rw e (ground arith)

-- The later of two beginnings and the earlier of two ends.
pub max_lem :
    (a b : ℤ)
    → ((max_ℤ a b ≡ a) × (pos_part b + neg_part a ≤ pos_part a + neg_part b))
      ⊎ ((max_ℤ a b ≡ b) × (pos_part a + neg_part b ≤ pos_part b + neg_part a))
max_lem a b = elim (Bool-cases (ltb_ℤ b a)) [
  | inl t ↦ inl (rw t refl, ground arith)
  | inr f ↦ inr (rw f refl, ground arith)
]

pub min_lem :
    (a b : ℤ)
    → ((min_ℤ a b ≡ b) × (pos_part b + neg_part a ≤ pos_part a + neg_part b))
      ⊎ ((min_ℤ a b ≡ a) × (pos_part a + neg_part b ≤ pos_part b + neg_part a))
min_lem a b = elim (Bool-cases (ltb_ℤ b a)) [
  | inl t ↦ inl (rw t refl, ground arith)
  | inr f ↦ inr (rw f refl, ground arith)
]

-- A span of which both ends are known.
record Span (from size to : ℤ) : Type 0 where
  f_pos : pos_part from < 2 ^ 29
  f_neg : neg_part from < 2 ^ 29
  s_neg : neg_part size ≡ 0
  ends : pos_part to + neg_part from ≡ neg_part to + pos_part from + pos_part size
  t_pos : pos_part to < 2 ^ 30
  t_neg : neg_part to < 2 ^ 30

common_lem :
    (from size from' size' to to' at : ℤ)
    → Span from size to
    → Span from' size' to'
    → let left = max_ℤ from from' in
      let common = max_ℤ (pos 0) (wrap_i32 (min_ℤ to to' -ℤ left)) in
      Spans left common at ↔ (Spans from size at × Spans from' size' at)
common_lem from size from' size' to to' at s s' = elim (max_lem from from') [
  | inl (l, le) ↦ elim (min_lem to to') [
    | inl (r, re) ↦
        let c = size_lem from to' (omega arith) (omega arith) (omega arith) (omega arith) in
        rw (l, r) (λ h. omega (arith, c), λ h. omega (arith, c))
    | inr (r, re) ↦
        let c = size_lem from to (omega arith) (omega arith) (omega arith) (omega arith) in
        rw (l, r) (λ h. omega (arith, c), λ h. omega (arith, c))
  ]
  | inr (l, le) ↦ elim (min_lem to to') [
    | inl (r, re) ↦
        let c = size_lem from' to' (omega arith) (omega arith) (omega arith) (omega arith) in
        rw (l, r) (λ h. omega (arith, c), λ h. omega (arith, c))
    | inr (r, re) ↦
        let c = size_lem from' to (omega arith) (omega arith) (omega arith) (omega arith) in
        rw (l, r) (λ h. omega (arith, c), λ h. omega (arith, c))
  ]
]

x-Span : (r : Rect) → Small r → Span r.x r.w (right r)
unfolding right
x-Span r s =
    let e = end_lem r.x r.w s.x_pos s.x_neg s.w_pos s.w_neg in
    record {
      f_pos = s.x_pos;
      f_neg = s.x_neg;
      s_neg = s.w_neg;
      ends = e.0;
      t_pos = e.1;
      t_neg = e.2;
    }

y-Span : (r : Rect) → Small r → Span r.y r.h (bottom r)
unfolding bottom
y-Span r s =
    let e = end_lem r.y r.h s.y_pos s.y_neg s.h_pos s.h_neg in
    record {
      f_pos = s.y_pos;
      f_neg = s.y_neg;
      s_neg = s.h_neg;
      ends = e.0;
      t_pos = e.1;
      t_neg = e.2;
    }

-- The larger of 0 and a number passes the assertion.
pub leb-max : (a : ℤ) → leb_ℤ (pos 0) (max_ℤ (pos 0) a) ≡ true
leb-max a = ground arith

pub rect_new_lem :
    (x y a b : ℤ)
    → let w = max_ℤ (pos 0) a in
      let h = max_ℤ (pos 0) b in rect_new x y w h ≡ some (record { x = x; y = y; w = w; h = h })
unfolding rect_new
rect_new_lem x y a b = rw (rect_new, leb-max a, leb-max b) refl

-- The intersection of two rectangles whose numbers are below 2 ^ 29 and whose sides are not negative
-- passes its assertions, and covers a pixel just if both rectangles do.
pub intersection-Covers :
    (a b : Rect) (x y : ℤ)
    → Small a
    → Small b
    → (r : Rect) × (intersection a b ≡ some r) × (Covers r x y ↔ (Covers a x y × Covers b x y))
unfolding intersection
intersection-Covers a b x y s t =
    let across = common_lem a.x a.w b.x b.w (right a) (right b) x (x-Span a s) (x-Span b t) in
    let down = common_lem a.y a.h b.y b.h (bottom a) (bottom b) y (y-Span a s) (y-Span b t) in
    let left = max_ℤ a.x b.x in
    let top = max_ℤ a.y b.y in
    let w = wrap_i32 (min_ℤ (right a) (right b) -ℤ left) in
    let h = wrap_i32 (min_ℤ (bottom a) (bottom b) -ℤ top) in
    (
      record { x = left; y = top; w = max_ℤ (pos 0) w; h = max_ℤ (pos 0) h },
      rect_new_lem left top w h,
      (
        λ c. let (ax, bx) = across.0 c.0 in let (ay, by) = down.0 c.1 in ((ax, ay), (bx, by)),
        λ c. (across.1 (c.0.0, c.1.0), down.1 (c.0.1, c.1.1)),
      ),
    )

-- The intersection, written out.
pub intersection_lem :
    (a b : Rect)
    → let left = max_ℤ a.x b.x in
      let top = max_ℤ a.y b.y in
      intersection a b
      ≡ some (record {
        x = left;
        y = top;
        w = max_ℤ (pos 0) (wrap_i32 (min_ℤ (right a) (right b) -ℤ left));
        h = max_ℤ (pos 0) (wrap_i32 (min_ℤ (bottom a) (bottom b) -ℤ top));
      })
unfolding intersection
intersection_lem a b =
    rect_new_lem (max_ℤ a.x b.x) (max_ℤ a.y b.y)
      (wrap_i32 (min_ℤ (right a) (right b) -ℤ max_ℤ a.x b.x))
      (wrap_i32 (min_ℤ (bottom a) (bottom b) -ℤ max_ℤ a.y b.y))

pub rect_new-pos :
    (x y : ℤ) (w h : ℕ)
    → rect_new x y (pos w) (pos h) ≡ some (record { x = x; y = y; w = pos w; h = pos h })
unfolding rect_new
rect_new-pos x y w h =
    let t : leb_ℤ (pos 0) (pos w) && leb_ℤ (pos 0) (pos h) ≡ true = ground arith in
    rw (rect_new, t) refl
