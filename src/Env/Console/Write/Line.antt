-- ===== src/Env/Console/Write/Line.antt =====
-- The lines that are typed into the console of kernel/env/console.rs, outside of raw mode.
use mathlib.Core.Path.{subst}
use redox.Prelude.{
  ℕ, ◌%◌, ◌≡◌, ◌≢◌, ◌∙◌, refl, sym, ap, ap₂, true, false, Bool-cases, inl, inr, ◌&&◌, ◌==◌,
  if◌then◌else◌, if_both, if_both_pair, eq_of_==, List, [], ◌∷◌, ◌++◌, arith,
}
use redox.Common.Event.{KeyEvent}
use redox.Env.Console.{Console, on_display}
use redox.Env.Console.Screen.Kept.{Core, core, character-core}
use redox.Env.Console.Write.{
  sent, write_byte, write_bytes, write, send_command, is_empty, pop, press_raw, erase,
  type_character, press,
}
use redox.Env.Console.Write.Text.{write_byte_text}

-- What a line editor without a screen does with a key: the line so far and the lines sent.
unfoldable pub edit : KeyEvent → List ℕ × List (List ℕ) → List ℕ × List (List ℕ)
edit k (line, lines) =
    if k.scancode == 0x0E
    then (pop line, lines)
    else if k.character == 0
    then (line, lines)
    else if k.character == 0x0A
    then ([], lines ++ (line ++ 0x0A ∷ []) ∷ [])
    else (line ++ k.character ∷ [], lines)

unfoldable pub edit_all : List KeyEvent → List ℕ × List (List ℕ) → List ℕ × List (List ℕ)
unfolding edit
edit_all [] state = state
edit_all (k ∷ keys) state = edit_all keys (edit k state)

-- No key echoes an escape character.
unfoldable pub NoEscapeKeys : List KeyEvent → Type 0
NoEscapeKeys [] = Unit
NoEscapeKeys (k ∷ keys) = (k.character % 256 ≢ 0x1B) × NoEscapeKeys keys

pop_empty : (xs : List ℕ) → is_empty xs ≡ true → pop xs ≡ xs
unfolding pop is_empty
pop_empty [] t = refl
pop_empty (x ∷ xs) t = cc

-- The console, as the line editor sees it.
pub record Edits (state : List ℕ × List (List ℕ)) (c : Console) : Type 0 where
  pub cooked : c.raw_mode ≡ false
  pub outside : c.escape ≡ false
  pub line : c.command ≡ state.0
  pub lines : c.commands ≡ state.1

module _ (modulus : ℕ) (font : ℕ → ℕ) where
  write-core :
      (byte : ℕ) (c : Console)
      → byte ≢ 0x1B
      → c.escape ≡ false
      → let c' = write modulus font (byte ∷ []) c in (core c' ≡ core c) × (c'.escape ≡ false)
  unfolding write write_bytes on_display sent
  write-core byte c ne e =
      let P : Console → Type 0 = λ c'. (core c' ≡ core c) × (c'.escape ≡ false) in
      let f : (byte == 0x1B) ≡ false = ground arith in
      let (same, e') = character-core modulus font byte c in
      let now : P (write_byte modulus font byte c) =
        subst P (sym (write_byte_text modulus font byte c e))
          (same, e' ∙ ap (λ b. if b then true else c.escape) f ∙ e) in
      let c' = write_byte modulus font byte c in if_both P (c'.draw && c'.redraw) now now

  write-Edits :
      (byte : ℕ) (c : Console) (state : List ℕ × List (List ℕ))
      → byte ≢ 0x1B
      → Edits state c
      → Edits state (write modulus font (byte ∷ []) (record c { redraw = true }))
  write-Edits byte c state ne h =
      let (same, e) = write-core byte (record c { redraw = true }) ne h.outside in
      record {
        cooked = ap {A = Core} (λ x. x.raw_mode) same ∙ h.cooked;
        outside = e;
        line = ap {A = Core} (λ x. x.command) same ∙ h.line;
        lines = ap {A = Core} (λ x. x.commands) same ∙ h.lines;
      }

  erase-Edits :
      (c : Console) (state : List ℕ × List (List ℕ))
      → Edits state c
      → Edits (pop state.0, state.1) (erase modulus font c)
  unfolding erase
  erase-Edits c state h =
      let w = write-Edits 8 c state (λ e. absurd (omega arith)) h in
      elim (Bool-cases (is_empty c.command)) [
        | inl t ↦
            rw (erase, t)
              (record {
                cooked = h.cooked;
                outside = h.outside;
                line = sym (pop_empty c.command t) ∙ ap pop h.line;
                lines = h.lines;
              })
        | inr f ↦
            rw (erase, f)
              (record {
                cooked = w.cooked;
                outside = w.outside;
                line = ap pop w.line;
                lines = w.lines;
              })
      ]

  type_character-Edits :
      (ch : ℕ) (c : Console) (state : List ℕ × List (List ℕ))
      → ch % 256 ≢ 0x1B
      → Edits state c
      → Edits
          (if ch == 0x0A
            then ([], state.1 ++ (state.0 ++ 0x0A ∷ []) ∷ [])
            else (state.0 ++ ch ∷ [], state.1))
          (type_character modulus font ch c)
  unfolding type_character send_command
  type_character-Edits ch c state ne h =
      let w = write-Edits (ch % 256) c state ne h in
      elim (Bool-cases (ch == 0x0A)) [
        | inl t ↦
            let same = eq_of_== ch 0x0A t in
            rw (type_character, t)
              (record {
                cooked = w.cooked;
                outside = w.outside;
                line = refl;
                lines = ap₂ (λ ls l. ls ++ l ∷ []) w.lines (ap₂ (λ l n. l ++ n ∷ []) w.line same);
              })
        | inr f ↦
            rw (type_character, f)
              (record {
                cooked = w.cooked;
                outside = w.outside;
                line = ap (λ l. l ++ ch ∷ []) w.line;
                lines = w.lines;
              })
      ]

  press_cooked :
      (k : KeyEvent) (c : Console)
      → c.raw_mode ≡ false
      → press modulus font k c ≡ (
          if k.scancode == 0x0E
          then erase modulus font c
          else if k.character == 0
          then c
          else type_character modulus font k.character c)
  unfolding press
  press_cooked k c e =
      ap
        (λ b.
          if b
          then press_raw modulus font k c
          else if k.scancode == 0x0E
          then erase modulus font c
          else if k.character == 0
          then c
          else type_character modulus font k.character c)
        e

  press-Edits :
      (k : KeyEvent) (c : Console) (state : List ℕ × List (List ℕ))
      → k.character % 256 ≢ 0x1B
      → Edits state c
      → Edits (edit k state) (press modulus font k c)
  unfolding edit
  press-Edits k c state ne h = subst (Edits (edit k state)) (sym (press_cooked k c h.cooked)) (
      if_both_pair Edits (k.scancode == 0x0E) (erase-Edits c state h)
        (if_both_pair Edits (k.character == 0) h (type_character-Edits k.character c state ne h)))

  -- Keys that are pressed in turn, on the console and in the line editor.
  pub press_all : List KeyEvent → Console → Console
  press_all [] c = c
  press_all (k ∷ keys) c = press_all keys (press modulus font k c)

  -- Outside of raw mode and of an escape sequence, pressing keys none of which echoes an escape
  -- character changes the command and the commands sent as a line editor without a screen does:
  -- characters are added, backspace takes the last one, and a newline sends the line.
  pub press_all-Edits :
      (keys : List KeyEvent) (c : Console) (state : List ℕ × List (List ℕ))
      → NoEscapeKeys keys
      → Edits state c
      → Edits (edit_all keys state) (press_all keys c)
  unfolding press_all NoEscapeKeys edit_all
  press_all-Edits [] c state ne h = h
  press_all-Edits (k ∷ keys) c state (ne, rest) h =
      press_all-Edits keys (press modulus font k c) (edit k state) rest (press-Edits k c state ne h)
