-- ===== src/Orbital/Window/Part.antt =====
-- The common part of a window and of a clip along one side, for crates/orbital/window.rs.
use redox.Prelude.{
  ℕ, ◌+◌, ◌-◌, ◌^◌, ◌<◌, ◌≤◌, ◌≡◌, refl, ap, ◌∙◌, sym, ◌&&◌, ltb, leb, arith, Bool-cases, inl, inr,
  ◌⊎◌,
}
use redox.Prelude.Int.{ℤ, pos, ◌+ℤ◌, ◌-ℤ◌, ltb_ℤ, wrap_i32, wrap_i32_of_IsI32, pos_part, neg_part}
use redox.Orbital.Rect.{max_ℤ, min_ℤ}
use redox.Orbital.Rect.Laws.{size_lem, end_lem}
use redox.Orbital.Window.{negate}

-- The common part of a window's span and that of a rectangle of the screen: where it begins on the
-- screen, how long it is, and where it begins in the window.
pub record Part (x : ℤ) (size from len : ℕ) : Type 0 where
  pub left : ℕ
  pub common : ℕ
  pub into : ℕ
  pub at : max_ℤ x (pos from) ≡ pos left
  pub long :
      max_ℤ (pos 0) (
        wrap_i32
          (min_ℤ (wrap_i32 (x +ℤ pos size)) (wrap_i32 (pos from +ℤ pos len)) -ℤ max_ℤ x (pos from)))
      ≡ pos common
  pub moved : wrap_i32 (pos left +ℤ negate x) ≡ pos into
  pub offsets : into + pos_part x ≡ left + neg_part x
  pub behind : from ≤ left
  pub in_rect : 0 < common → left + common ≤ from + len
  pub in_window : 0 < common → into + common ≤ size
  pub spans :
      (px : ℕ)
      → leb left px && ltb px (left + common)
        ≡ leb from px
          && ltb px (from + len)
          && leb (pos_part x) (px + neg_part x)
          && ltb (px + neg_part x) (pos_part x + size)

-- A number that is not negative.
of_parts : (a : ℤ) → neg_part a ≡ 0 → a ≡ pos (pos_part a)
of_parts a h = ground arith

-- The parts of the larger and of the smaller of two numbers.
max_parts :
    (a b : ℤ)
    → let m = max_ℤ a b in
      ((pos_part m ≡ pos_part a)
        × (neg_part m ≡ neg_part a)
        × (pos_part b + neg_part a ≤ pos_part a + neg_part b))
      ⊎ ((pos_part m ≡ pos_part b)
          × (neg_part m ≡ neg_part b)
          × (pos_part a + neg_part b ≤ pos_part b + neg_part a))
max_parts a b = elim (Bool-cases (ltb_ℤ b a)) [
  | inl t ↦ inl (rw t refl, rw t refl, ground arith)
  | inr f ↦ inr (rw f refl, rw f refl, ground arith)
]

min_parts :
    (a b : ℤ)
    → let m = min_ℤ a b in
      ((pos_part m ≡ pos_part b)
        × (neg_part m ≡ neg_part b)
        × (pos_part b + neg_part a ≤ pos_part a + neg_part b))
      ⊎ ((pos_part m ≡ pos_part a)
          × (neg_part m ≡ neg_part a)
          × (pos_part a + neg_part b ≤ pos_part b + neg_part a))
min_parts a b = elim (Bool-cases (ltb_ℤ b a)) [
  | inl t ↦ inl (rw t refl, rw t refl, ground arith)
  | inr f ↦ inr (rw f refl, rw f refl, ground arith)
]

max-zero : (a : ℤ) (n : ℕ) → neg_part (max_ℤ a (pos n)) ≡ 0
max-zero a n = ground arith

-- The way from the beginning of the window to the part.
moved_lem :
    (x : ℤ) (l : ℕ)
    → pos_part x < 2 ^ 29
    → neg_part x < 2 ^ 29
    → l < 2 ^ 29
    → pos_part x ≤ l + neg_part x
    → wrap_i32 (pos l +ℤ negate x) ≡ pos (l + neg_part x - pos_part x)
unfolding negate ◌-ℤ◌ ◌+ℤ◌
moved_lem x l xp xn lf le =
    let minus : negate x ≡ pos 0 -ℤ x = wrap_i32_of_IsI32 (pos 0 -ℤ x) (ground arith) in
    let sum : pos l +ℤ (pos 0 -ℤ x) ≡ pos (l + neg_part x - pos_part x) = ground arith in
    ap (λ t. wrap_i32 (pos l +ℤ t)) minus
    ∙ ap wrap_i32 sum
    ∙ wrap_i32_of_IsI32 (pos (l + neg_part x - pos_part x)) (omega arith, omega arith)

covers_lem :
    (l k from len xp xn size px : ℕ)
    → (l ≤ px
        → px < l + k
        → (from ≤ px) × (px < from + len) × (xp ≤ px + xn) × (px + xn < xp + size))
    → (from ≤ px → px < from + len → xp ≤ px + xn → px + xn < xp + size → (l ≤ px) × (px < l + k))
    → leb l px && ltb px (l + k)
      ≡ leb from px && ltb px (from + len) && leb xp (px + xn) && ltb (px + xn) (xp + size)
covers_lem l k from len xp xn size px there back = elim (Bool-cases (leb l px && ltb px (l + k))) [
  | inl t ↦ let facts = there (ground arith) (ground arith) in ground arith
  | inr f ↦
      elim (Bool-cases
        (leb from px && ltb px (from + len) && leb xp (px + xn) && ltb (px + xn) (xp + size))) [
          | inl t' ↦
              let facts = back (ground arith) (ground arith) (ground arith) (ground arith) in
              ground arith
          | inr f' ↦ f ∙ sym f'
        ]
]

pub part_lem :
    (x : ℤ) (size from len : ℕ)
    → pos_part x < 2 ^ 29
    → neg_part x < 2 ^ 29
    → size < 2 ^ 29
    → from < 2 ^ 29
    → len < 2 ^ 29
    → Part x size from len
part_lem x size from len xp xn ss fs ls =
    let e1 = end_lem x (pos size) xp xn ss refl in
    let e2 = end_lem (pos from) (pos len) fs (omega arith) ls refl in
    let to = wrap_i32 (x +ℤ pos size) in
    let to' = wrap_i32 (pos from +ℤ pos len) in
    let l = max_ℤ x (pos from) in
    let r = min_ℤ to to' in
    let lp = max_parts x (pos from) in
    let l0 = max-zero x from in
    let rp = min_parts to to' in
    let k =
      size_lem l r (omega (arith, lp)) (omega arith) (omega (arith, rp, e1, e2))
        (omega (arith, rp, e1, e2)) in
    record {
      left = pos_part l;
      common = pos_part (max_ℤ (pos 0) (wrap_i32 (r -ℤ l)));
      into = pos_part l + neg_part x - pos_part x;
      at = of_parts l l0;
      long = of_parts (max_ℤ (pos 0) (wrap_i32 (r -ℤ l))) k.1;
      moved = moved_lem x (pos_part l) xp xn (omega (arith, lp)) (omega (arith, lp));
      offsets = omega (arith, lp);
      behind = omega (arith, lp);
      in_rect = λ h. omega (arith, lp, rp, l0, k, e1, e2);
      in_window = λ h. omega (arith, lp, rp, l0, k, e1, e2);
      spans = λ px.
          covers_lem (pos_part l) (pos_part (max_ℤ (pos 0) (wrap_i32 (r -ℤ l)))) from len
            (pos_part x) (neg_part x) size px
            (λ h j. (
              omega (arith, lp, rp, l0, k, e1, e2),
              omega (arith, lp, rp, l0, k, e1, e2),
              omega (arith, lp, rp, l0, k, e1, e2),
              omega (arith, lp, rp, l0, k, e1, e2),
            ))
            (λ a b c d.
              (omega (arith, lp, rp, l0, k, e1, e2), omega (arith, lp, rp, l0, k, e1, e2)));
    }
