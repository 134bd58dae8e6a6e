-- ===== src/Env/Console/Write/Color.antt =====
-- The control sequences of true colors, written to the console of kernel/env/console.rs.
use mathlib.Core.Path.{subst}
use redox.Prelude.{
  Option, some, ℕ, zero, suc, ◌+◌, ◌-◌, ◌/◌, ◌%◌, ◌≡◌, ◌≤◌, ◌<◌, inl, inr, ◌∙◌, refl, sym, ap, Bool,
  true, false, ◌&&◌, Bool-cases, and_left, and_right, eq_of_==, ltb, ltb→lt, leb, ◌==◌,
  if◌then◌else◌, if_both, List, [], ◌∷◌, ◌++◌, length, arith, ℕ_discrete,
}
use redox.Graphics.Color.{color}
use redox.Env.Console.{
  Console, on_display, parse_or, parse, parse_from, next, given, extended, attribute, attributes,
  control, finish,
}
use redox.Env.Console.Screen.{character}
use redox.Env.Console.Screen.Kept.{Core, core, character-core}
use redox.Env.Console.Write.{sent, write_bytes, write}
use redox.Env.Console.Write.Text.{write_byte_text}
use redox.Env.Console.Write.Sequence.{Digits, AllDigits, join, reading, write_bytes-control}

-- The decimal digits of a byte.
pub decimal : ℕ → List ℕ
decimal n =
    if ltb n 10
    then (48 + n) ∷ []
    else if ltb n 100
    then (48 + n / 10) ∷ (48 + n % 10) ∷ []
    else (48 + n / 100) ∷ (48 + n / 10 % 10) ∷ (48 + n % 10) ∷ []

decimal-Digits : (n : ℕ) → n ≤ 255 → Digits (decimal n)
unfolding decimal Digits
decimal-Digits n le =
    let tens : n / 10 ≤ 25 = omega arith in
    elim (Bool-cases (ltb n 10)) [
      | inl t ↦ let one : n < 10 = ltb→lt n 10 t in rw (decimal, t) (omega arith, omega arith, tt)
      | inr f ↦ elim (Bool-cases (ltb n 100)) [
        | inl t ↦
            let two : n < 100 = ltb→lt n 100 t in
            rw (decimal, f, t) (omega arith, omega arith, (omega arith, omega arith, tt))
        | inr f' ↦
            rw (decimal, f, f')
              (omega arith, omega arith, (omega arith, omega arith, (omega arith, omega arith, tt)))
      ]
    ]

all_below : ℕ → (ℕ → Bool) → Bool
all_below zero f = true
all_below (suc n) f = f n && all_below n f

all_below_lem : (n k : ℕ) (f : ℕ → Bool) → all_below n f ≡ true → k < n → f k ≡ true
unfolding all_below
all_below_lem zero k f t lt = absurd (omega arith)
all_below_lem (suc n) k f t lt = elim (ℕ_discrete k n) [
  | yes e ↦ ap f e ∙ and_left (f n) (all_below n f) t
  | no ne ↦ all_below_lem n k f (and_right (f n) (all_below n f) t) (omega arith)
]

parse_bytes : all_below 256 (λ n. parse_or 255 0 (decimal n) == n) ≡ true
unfolding all_below parse_or decimal
parse_bytes = refl

-- A byte is read back from its decimal digits.
parse_or-decimal : (n : ℕ) → n ≤ 255 → parse_or 255 0 (decimal n) ≡ n
parse_or-decimal n le =
    eq_of_== (parse_or 255 0 (decimal n)) n
      (all_below_lem 256 n (λ n. parse_or 255 0 (decimal n) == n) parse_bytes (omega arith))

module _ (modulus : ℕ) (font : ℕ → ℕ) where
  parse_two : 3 ≤ modulus → parse_or (modulus - 1) 0 (decimal 2) ≡ 2
  unfolding parse_or decimal parse parse_from
  parse_two m = let t : leb 2 (modulus - 1) ≡ true = ground arith in rw (parse_or, t) refl

  extended_true :
      (r g b : ℕ)
      → 3 ≤ modulus
      → r ≤ 255
      → g ≤ 255
      → b ≤ 255
      → extended modulus (decimal 2 ∷ decimal r ∷ decimal g ∷ decimal b ∷ [])
        ≡ (some (color r g b), [])
  unfolding extended next
  extended_true r g b m hr hg hb =
      rw (parse_two m, parse_or-decimal r hr, parse_or-decimal g hg, parse_or-decimal b hb) refl

  attributes_given :
      (iter : List (List ℕ)) (new_color fg bg : ℕ)
      → extended modulus iter ≡ (some new_color, [])
      → attributes modulus 5 (decimal 38 ∷ iter) fg bg ≡ (new_color, bg)
  unfolding attributes attribute given parse_or parse parse_from decimal
  attributes_given iter new_color fg bg e =
      ap {A = Option ℕ × List (List ℕ)} (λ x. attributes modulus 4 x.1 (given x.0 fg) bg) e

  attributes_true :
      (r g b fg bg : ℕ)
      → 3 ≤ modulus
      → r ≤ 255
      → g ≤ 255
      → b ≤ 255
      → attributes modulus 5 (decimal 38 ∷ decimal 2 ∷ decimal r ∷ decimal g ∷ decimal b ∷ []) fg bg
        ≡ (color r g b, bg)
  attributes_true r g b fg bg m hr hg hb =
      attributes_given (decimal 2 ∷ decimal r ∷ decimal g ∷ decimal b ∷ []) (color r g b) fg bg
        (extended_true r g b m hr hg hb)

  -- The console behind the escape character.
  escaped : Console → Console
  escaped c = sent 0x1B (character modulus font 0x1B c)

  core-escaped : (c : Console) → (core (escaped c) ≡ core c) × ((escaped c).escape ≡ true)
  unfolding escaped sent
  core-escaped c = character-core modulus font 0x1B c

  control_m :
      (c : Console) (fg bg : ℕ)
      → attributes modulus (length c.sequence) c.sequence c.foreground c.background ≡ (fg, bg)
      → control modulus 0x6D c ≡ record c { foreground = fg; background = bg }
  unfolding control
  control_m c fg bg e = ap {A = ℕ × ℕ} (λ x. record c { foreground = x.0; background = x.1 }) e

  write_bytes-true_color :
      (r g b : ℕ) (c : Console)
      → 3 ≤ modulus
      → r ≤ 255
      → g ≤ 255
      → b ≤ 255
      → c.escape ≡ false
      → c.escape_sequence ≡ false
      → c.sequence ≡ []
      → let params = decimal 2 ∷ decimal r ∷ decimal g ∷ decimal b ∷ [] in
        let read =
          reading
            (escaped c)
            (decimal 38 ∷ params)
            ((escaped c).serial ++ 0x5B ∷ join (decimal 38) params) in
        write_bytes modulus font (0x1B ∷ 0x5B ∷ join (decimal 38) params ++ 0x6D ∷ []) c
        ≡ sent 0x6D
            (finish (record read { foreground = color r g b; background = (escaped c).background }))
  unfolding write_bytes escaped AllDigits
  write_bytes-true_color r g b c m hr hg hb e es seq =
      let params = decimal 2 ∷ decimal r ∷ decimal g ∷ decimal b ∷ [] in
      let base = escaped c in
      let (same, on) = core-escaped c in
      let out = base.serial ++ 0x5B ∷ join (decimal 38) params in
      let read = reading base (decimal 38 ∷ params) out in
      ap (write_bytes modulus font (0x5B ∷ join (decimal 38) params ++ 0x6D ∷ []))
        (write_byte_text modulus font 0x1B c e)
      ∙ write_bytes-control modulus font base (decimal 38) params 0x6D on
          (ap {A = Core} (λ x. x.escape_sequence) same ∙ es)
          (ap {A = Core} (λ x. x.sequence) same ∙ seq) (decimal-Digits 38 (omega arith))
          (
            decimal-Digits 2 (omega arith),
            (decimal-Digits r hr, (decimal-Digits g hg, (decimal-Digits b hb, tt))),
          )
          (omega arith)
      ∙ ap (λ x. sent 0x6D (finish x))
          (control_m read (color r g b) base.background
            (attributes_true r g b base.foreground base.background m hr hg hb))

  -- Outside of an escape sequence, and where a usize holds 2, writing the sequence
  -- `ESC [ 38 ; 2 ; r ; g ; b m` of three bytes in decimal makes them the foreground, leaves the
  -- background, and ends outside of a sequence.
  pub write-true_color :
      (r g b : ℕ) (c : Console)
      → 3 ≤ modulus
      → r ≤ 255
      → g ≤ 255
      → b ≤ 255
      → c.escape ≡ false
      → c.escape_sequence ≡ false
      → c.sequence ≡ []
      → let params = decimal 2 ∷ decimal r ∷ decimal g ∷ decimal b ∷ [] in
        let c' = write modulus font (0x1B ∷ 0x5B ∷ join (decimal 38) params ++ 0x6D ∷ []) c in
        (c'.foreground ≡ color r g b)
        × (c'.background ≡ c.background)
        × (c'.escape ≡ false)
        × (c'.escape_sequence ≡ false)
        × (c'.sequence ≡ [])
  unfolding write on_display finish sent
  write-true_color r g b c m hr hg hb e es seq =
      let params = decimal 2 ∷ decimal r ∷ decimal g ∷ decimal b ∷ [] in
      let read =
        reading (escaped c) (decimal 38 ∷ params)
          ((escaped c).serial ++ 0x5B ∷ join (decimal 38) params) in
      let end =
        sent 0x6D (
          finish (record read { foreground = color r g b; background = (escaped c).background })) in
      let P : Console → Type 0 = λ c'.
        (c'.foreground ≡ color r g b)
        × (c'.background ≡ c.background)
        × (c'.escape ≡ false)
        × (c'.escape_sequence ≡ false)
        × (c'.sequence ≡ []) in
      let (same, on) = core-escaped c in
      let at_end : P end = (refl, ap {A = Core} (λ x. x.background) same, refl, refl, refl) in
      let (c1, c2, c3, c4, c5) =
        subst P (sym (write_bytes-true_color r g b c m hr hg hb e es seq)) at_end in
      let c' = write_bytes modulus font (0x1B ∷ 0x5B ∷ join (decimal 38) params ++ 0x6D ∷ []) c in
      if_both P (c'.draw && c'.redraw) (c1, c2, c3, c4, c5) (c1, c2, c3, c4, c5)
