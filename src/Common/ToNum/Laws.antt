-- ===== src/Common/ToNum/Laws.antt =====
-- What kernel/common/to_num.rs reads from a string of digits.
use native.Mathlib.Nat.{mod-add-mod, mod-eq_of_lt, add-mod_right, div-add-mod'}
use redox.Prelude.{
  ℕ, zero, suc, ◌+◌, ◌-◌, ◌*◌, ◌%◌, ◌≤◌, ◌<◌, ◌≡◌, refl, sym, ◌∙◌, ap, ◌/◌, Bool, true, List, [],
  ◌∷◌, ◌++◌, map, none, some, ltb, leb, if◌then◌else◌, arith,
}
use redox.Common.ToNum.{digit_of, radix_loop, to_num_radix}

-- The character of a digit below 36; the letters in either case.
pub digit_char : Bool → ℕ → ℕ
digit_char upper d =
    if ltb d 10 then b'0' + d else if upper then b'A' + (d - 10) else b'a' + (d - 10)

-- The number that digits stand for, most significant first.
pub value : ℕ → ℕ → List ℕ → ℕ
value radix num [] = num
value radix num (d ∷ ds) = value radix (num * radix + d) ds

abbrev pub Digits : ℕ → List ℕ → Type 0
Digits radix [] = Unit
Digits radix (d ∷ ds) = (d < radix) × Digits radix ds

-- The rest of the string does not go on with a digit of this radix.
unfoldable pub ends : ℕ → List ℕ → Bool
ends radix [] = true
ends radix (c ∷ cs) = elim (digit_of c) [ none ↦ true | some digit ↦ leb radix digit ]

digit_of-digit_char : (upper : Bool) (d : ℕ) → d < 36 → digit_of (digit_char upper d) ≡ some d
unfolding digit_of digit_char
digit_of-digit_char upper d lt = ground arith

add-mul-mod : (a k m : ℕ) → (a + k * m) % m ≡ a % m
add-mul-mod a zero m = ap (λ t. t % m) (omega arith)
add-mul-mod a (suc k) m =
    ap (λ t. t % m) (omega arith) ∙ add-mod_right (a + k * m) m ∙ add-mul-mod a k m

-- Wrapping at each step is wrapping at the end.
wrap_step : (m num radix d : ℕ) → (num % m * radix % m + d) % m ≡ (num * radix + d) % m
wrap_step m num radix d =
    mod-add-mod (num % m * radix) m d
    ∙ sym (add-mul-mod (num % m * radix + d) (num / m * radix) m)
    ∙ ap (λ t. t % m) regroup
  where
    regroup : num % m * radix + d + num / m * radix * m ≡ num * radix + d
    regroup = omega (arith, ap (λ (t : ℕ). t * radix) (div-add-mod' num m))

radix_loop_lem :
    (m radix num : ℕ) (upper : Bool) (ds rest : List ℕ)
    → radix ≤ 36
    → Digits radix ds
    → ends radix rest ≡ true
    → radix_loop m radix (num % m) (map (digit_char upper) ds ++ rest) ≡ value radix num ds % m
unfolding radix_loop value
radix_loop_lem m radix num upper [] [] small digits stop = refl
radix_loop_lem m radix num upper [] (c ∷ rest) small digits stop = unfold ends in ground arith
radix_loop_lem m radix num upper (d ∷ ds) rest small digits stop =
    rw (digit_of-digit_char upper d (omega arith), radix_loop, wrap_step)
      (ground (arith, radix_loop_lem m radix (num * radix + d) upper ds rest small digits.1 stop))

-- For a positive modulus and a radix from 1 to 36: on digits of the radix, the letters in either case, followed by nothing or by a character that is
-- no digit of the radix, the result is the number that the digits stand for, modulo the size of a
-- word.
pub to_num_radix_lem :
    (modulus radix : ℕ) (upper : Bool) (ds rest : List ℕ)
    → 0 < modulus
    → 0 < radix
    → radix ≤ 36
    → Digits radix ds
    → ends radix rest ≡ true
    → to_num_radix modulus (map (digit_char upper) ds ++ rest) radix ≡ value radix 0 ds % modulus
unfolding to_num_radix
to_num_radix_lem modulus radix upper ds rest pos r small digits stop =
    let zero_mod : 0 % modulus ≡ 0 = mod-eq_of_lt pos in
    ground (arith, zero_mod, radix_loop_lem modulus radix 0 upper ds rest small digits stop)
