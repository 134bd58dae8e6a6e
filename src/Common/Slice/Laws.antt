-- ===== src/Common/Slice/Laws.antt =====
-- What `get_slice` of kernel/common/slice.rs returns.
use redox.Prelude.{
  ℕ, ◌-◌, ◌≤◌, ◌≡◌, refl, ◌∙◌, ap, sym, min, Bool-cases, List, Option, none, some, leb, length,
  take, drop, arith, length-drop, drop_all, take_all, take-min, take-nil, leb-false, dec_lt, inl,
  inr,
}
use redox.Common.Slice.{range, slice, get_slice}

module _ {ℓ} {A : Type ℓ} (xs : List A) where
  slice_within :
      (a b : ℕ)
      → a ≤ length xs
      → take (min b (length xs) - a) (drop a xs) ≡ take (b - a) (drop a xs)
  slice_within a b le =
      let e : min b (length xs) - a ≡ min (b - a) (length (drop a xs)) =
        omega (arith, length-drop a xs) in
      rw e (take-min (b - a) (drop a xs))

  slice-range :
      (a b : ℕ)
      → slice xs (range (min a (length xs)) (min b (length xs))) ≡ take (b - a) (drop a xs)
  unfolding slice range
  slice-range a b = elim (Bool-cases (leb (min a (length xs)) (min b (length xs)))) [
    | inl t ↦ elim (dec_lt (length xs) a) [
      | yes lt ↦
          let e : min a (length xs) ≡ length xs = omega arith in
          rw (t, e, drop_all (length xs) xs (omega arith), drop_all a xs (omega arith))
            (take-nil A _ ∙ sym (take-nil A (b - a)))
      | no ge ↦
          let e : min a (length xs) ≡ a = omega arith in rw (t, e) (slice_within a b (omega arith))
    ]
    | inr t ↦ let e : b - a ≡ 0 = omega (arith, leb-false _ _ t) in rw (t, e)
  ]

  -- A slice between two positions never panics, wherever they lie: beyond the end there is nothing,
  -- and a range whose start lies behind its end is empty.
  pub get_slice_lem :
      (a b : ℕ) → get_slice xs (some (some a)) (some (some b)) ≡ some (take (b - a) (drop a xs))
  unfolding get_slice
  get_slice_lem a b = ap some (slice-range a b)

  pub get_slice_to : (b : ℕ) → get_slice xs none (some (some b)) ≡ some (take b xs)
  unfolding get_slice
  get_slice_to b = ap some (slice-range 0 b ∙ ap (λ n. take n xs) (omega arith))

  pub get_slice_from : (a : ℕ) → get_slice xs (some (some a)) none ≡ some (drop a xs)
  unfolding get_slice
  get_slice_from a =
      ap some (slice-range a (length xs) ∙ take_all _ _ (omega (arith, length-drop a xs)))

  pub get_slice-panics :
      (b : Option (Option ℕ))
      → (get_slice xs (some none) b ≡ none) × (get_slice xs none (some none) ≡ none)
  unfolding get_slice
  get_slice-panics b = (refl, refl)
