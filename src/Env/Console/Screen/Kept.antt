-- ===== src/Env/Console/Screen/Kept.antt =====
-- What a character leaves as it was, in the console of kernel/env/console.rs.
use redox.Prelude.{
  ℕ, zero, suc, ◌+◌, ◌-◌, ◌%◌, ◌≡◌, ◌∙◌, refl, ap, Bool, true, false, Bool-cases, inl, inr, ltb,
  leb, ◌==◌, if◌then◌else◌, if_both, List, arith,
}
use redox.Graphics.Display.{scroll}
use redox.Env.Console.{Console, on_display}
use redox.Env.Console.Screen.{scroll_up, draw_cell, wrap_line, dimensions, settle, print, character}

-- What is neither on the screen nor about the position, but for `escape`.
pub record Core : Type 0 where
  pub escape_sequence : Bool
  pub sequence : List (List ℕ)
  pub foreground : ℕ
  pub background : ℕ
  pub raw_mode : Bool
  pub command : List ℕ
  pub commands : List (List ℕ)

abbrev pub core : Console → Core
core c = record {
  escape_sequence = c.escape_sequence;
  sequence = c.sequence;
  foreground = c.foreground;
  background = c.background;
  raw_mode = c.raw_mode;
  command = c.command;
  commands = c.commands;
}

abbrev Keeps : Console → Console → Type 0
Keeps c c' = (core c' ≡ core c) × (c'.escape ≡ c.escape)

module _ (modulus : ℕ) where
  scroll_up-Keeps : (fuel height : ℕ) (c : Console) → Keeps c (scroll_up modulus fuel height c)
  unfolding scroll_up on_display
  scroll_up-Keeps zero height c = (refl, refl)
  scroll_up-Keeps (suc fuel) height c =
      elim (Bool-cases (ltb height ((c.point_y + 16) % modulus))) [
        | inr f ↦ rw (scroll_up, f) (refl, refl)
        | inl t ↦
            let c1 = on_display (scroll modulus 16 c.background) c in
            let c' : Console = record c1 { point_y = (c.point_y + modulus - 16) % modulus } in
            rw (scroll_up, t) (scroll_up-Keeps fuel height c')
      ]

  wrap_line-Keeps : (width : ℕ) (c : Console) → Keeps c (wrap_line modulus width c)
  unfolding wrap_line
  wrap_line-Keeps width c = if_both (Keeps c) (leb width c.point_x) (refl, refl) (refl, refl)

  draw_cell-Keeps : (color : ℕ) (c : Console) → Keeps c (draw_cell modulus color c)
  unfolding draw_cell on_display
  draw_cell-Keeps color c = (refl, refl)

  settle-Keeps : (width height : ℕ) (c : Console) → Keeps c (settle modulus width height c)
  unfolding settle
  settle-Keeps width height c =
      let c1 = wrap_line modulus width c in
      let c2 = scroll_up modulus (c1.point_y + 1) height c1 in
      let (p, e) = wrap_line-Keeps width c in
      let (p', e') = scroll_up-Keeps (c1.point_y + 1) height c1 in
      let (p'', e'') = draw_cell-Keeps c2.foreground c2 in (p'' ∙ p' ∙ p, e'' ∙ e' ∙ e)

  module _ (font : ℕ → ℕ) where
    print-core : (ch : ℕ) (c : Console) → core (print modulus font ch c) ≡ core c
    unfolding print draw_cell on_display
    print-core ch c =
        let P : Console → Type 0 = λ c'. core c' ≡ core c in
        if_both P (ch == 0) refl (
          if_both P (ch == 0x1B) refl (
            if_both P (ch == 0x0A) refl (
              if_both P (ch == 0x09) refl
                (if_both P (ch == 0x0D) refl (if_both P (ch == 0x08) refl refl)))))

    print-escape :
        (ch : ℕ) (c : Console)
        → (print modulus font ch c).escape ≡ (if ch == 0x1B then true else c.escape)
    unfolding print draw_cell on_display
    print-escape ch c =
        let P : Console → Type 0 = λ c'. c'.escape ≡ c.escape in
        elim (Bool-cases (ch == 0x1B)) [
          | inl t ↦ let f : (ch == 0) ≡ false = ground arith in rw (print, f, t) refl
          | inr f ↦
              rw (print, f)
                (if_both P (ch == 0) refl (
                  if_both P (ch == 0x0A) refl (
                    if_both P (ch == 0x09) refl
                      (if_both P (ch == 0x0D) refl (if_both P (ch == 0x08) refl refl)))))
        ]

    -- A character changes neither colors nor mode nor command, and starts an escape sequence only if
    -- it is the escape character.
    pub character-core :
        (ch : ℕ) (c : Console)
        → let c' = character modulus font ch c in
          (core c' ≡ core c) × (c'.escape ≡ (if ch == 0x1B then true else c.escape))
    unfolding character
    character-core ch c =
        let d = dimensions c.display in
        let c1 = draw_cell modulus c.background c in
        let c2 = print modulus font ch c1 in
        let (p, e) = draw_cell-Keeps c.background c in
        let (p', e') = settle-Keeps d.0 d.1 c2 in
        (
          p' ∙ print-core ch c1 ∙ p,
          e' ∙ print-escape ch c1 ∙ ap (λ b. if ch == 0x1B then true else b) e,
        )
