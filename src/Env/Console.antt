-- ===== src/Env/Console.antt =====
-- kernel/env/console.rs: the console. Characters and strings are numbers and lists of them, a color
-- is its data, `commands` holds what was sent to the queue, and `serial` the bytes that went to the
-- serial port. `modulus` is the number of values of a usize, `font` the bytes of the font.
pub mod Screen
pub mod Write
use redox.Prelude.{
  ℕ, zero, suc, ◌+◌, ◌-◌, ◌*◌, ◌/◌, ◌%◌, max, Bool, true, false, ◌&&◌, ◌||◌, not, List, [], ◌∷◌,
  ◌++◌, Option, none, some, length, get_or, ltb, leb, ◌==◌, if◌then◌else◌,
}
use redox.Graphics.Color.{color}
use redox.Graphics.Display.{Display, fill, rect}

-- The component of a color of the cube.
pub convert : ℕ → ℕ
convert value = if value == 0 then 0 else value * 0x28 + 0x28

abbrev pub colors : List ℕ
colors =
    0xFF00_0000 ∷ 0xFF80_0000 ∷ 0xFF00_8000 ∷ 0xFF80_8000 ∷ 0xFF00_0080 ∷ 0xFF80_0080 ∷ 0xFF00_8080
    ∷ 0xFFC0_C0C0 ∷ 0xFF80_8080 ∷ 0xFFFF_0000 ∷ 0xFF00_FF00 ∷ 0xFFFF_FF00 ∷ 0xFF00_00FF
    ∷ 0xFFFF_00FF ∷ 0xFF00_FFFF ∷ 0xFFFF_FFFF ∷ []

pub ansi_color : ℕ → ℕ
unfolding color convert
ansi_color value =
    if ltb value 16
    then get_or colors value 0xFF00_0000
    else if ltb value 232
    then color (convert ((value - 16) / 36 % 6)) (convert ((value - 16) / 6 % 6))
        (convert ((value - 16) % 6))
    else let gray = (value - 232) * 10 + 8 in color gray gray gray

pub record Console : Type 0 where
  pub display : Option Display
  pub point_x : ℕ
  pub point_y : ℕ
  pub foreground : ℕ
  pub background : ℕ
  pub draw : Bool
  pub redraw : Bool
  pub command : List ℕ
  pub commands : List (List ℕ)
  pub escape : Bool
  pub escape_sequence : Bool
  pub sequence : List (List ℕ)
  pub raw_mode : Bool
  pub serial : List ℕ

-- `Console::new`, with what `Display::root` returns.
pub new : Option Display → Console
unfolding ansi_color
new display = record {
  display = display;
  point_x = 0;
  point_y = 0;
  foreground = ansi_color 7;
  background = ansi_color 0;
  draw = false;
  redraw = true;
  command = [];
  commands = [];
  escape = false;
  escape_sequence = false;
  sequence = [];
  raw_mode = false;
  serial = [];
}

-- `parse`, of decimal digits that stand for at most `top`: no other strings get into a sequence.
pub parse_from : (top acc : ℕ) → List ℕ → Option ℕ
parse_from top acc [] = some acc
parse_from top acc (c ∷ s) =
    let n = acc * 10 + (c - 48) in
    elim (leb 48 c && leb c 57 && leb n top) [ true ↦ parse_from top n s | false ↦ none ]

pub parse : ℕ → List ℕ → Option ℕ
unfolding parse_from
parse top [] = none
parse top (c ∷ s) = parse_from top 0 (c ∷ s)

pub parse_or : (top default : ℕ) → List ℕ → ℕ
unfolding parse
parse_or top default s = elim (parse top s) [ none ↦ default | some n ↦ n ]

-- `value_iter.next().map_or("", |s| &s)`
pub next : List (List ℕ) → List ℕ × List (List ℕ)
next [] = ([], [])
next (s ∷ iter) = (s, iter)

-- `if let Some(mut value) = self.sequence.last_mut() { value.push(c); }`
pub push_last : List (List ℕ) → ℕ → List (List ℕ)
push_last [] c = []
push_last (s ∷ []) c = (s ++ c ∷ []) ∷ []
push_last (s ∷ t ∷ rest) c = s ∷ push_last (t ∷ rest) c

pub on_display : (Display → Display) → Console → Console
on_display f c = record c { display = elim c.display [ none ↦ none | some d ↦ some (f d) ] }

-- The end of a control sequence.
pub finish : Console → Console
finish c = record c { escape_sequence = false; sequence = []; escape = false }

-- The color that a sequence gives, if it gives one.
pub given : Option ℕ → ℕ → ℕ
given none old = old
given (some c) old = c

module _ (modulus : ℕ) where
  -- True color and 256 color, behind 38 and 48.
  pub extended : List (List ℕ) → Option ℕ × List (List ℕ)
  unfolding next parse_or color ansi_color
  extended iter =
      let (kind, iter) = next iter in
      let k = parse_or (modulus - 1) 0 kind in
      let (r, iter_r) = next iter in
      let (g, iter_g) = next iter_r in
      let (b, iter_b) = next iter_g in
      if k == 2
      then (some (color (parse_or 255 0 r) (parse_or 255 0 g) (parse_or 255 0 b)), iter_b)
      else if k == 5
      then (some (ansi_color (parse_or 255 0 r)), iter_r)
      else (none, iter)

  -- One round of the loop of `m`: the foreground, the background and the values left.
  pub attribute : ℕ → List (List ℕ) → (fg bg : ℕ) → ℕ × ℕ × List (List ℕ)
  unfolding extended ansi_color given
  attribute value iter fg bg =
      let (c, rest) = extended iter in
      if value == 0
      then (ansi_color 7, ansi_color 0, iter)
      else if leb 30 value && leb value 37
      then (ansi_color (value - 30), bg, iter)
      else if value == 38
      then (given c fg, bg, rest)
      else if leb 40 value && leb value 47
      then (fg, ansi_color (value - 40), iter)
      else if value == 48
      then (fg, given c bg, rest)
      else (fg, bg, iter)

  -- The loop, on fuel: each round takes at least one value.
  pub attributes : ℕ → List (List ℕ) → (fg bg : ℕ) → ℕ × ℕ
  unfolding attribute parse_or
  attributes zero iter fg bg = (fg, bg)
  attributes (suc fuel) [] fg bg = (fg, bg)
  attributes (suc fuel) (s ∷ iter) fg bg =
      let (fg', bg', rest) = attribute (parse_or 255 0 s) iter fg bg in attributes fuel rest fg' bg'

  -- `cmp::max(0, n - 1) as usize * size`, of a coordinate that the sequence gives or that is 1.
  pub coordinate : (i size : ℕ) → List (List ℕ) → ℕ
  unfolding parse_or
  coordinate i size sequence =
      (parse_or (modulus / 2 - 1) 1 (get_or sequence i []) - 1) * size % modulus

  -- The arms of `code` that end a control sequence.
  pub control : ℕ → Console → Console
  unfolding attributes coordinate on_display
  control ch c =
      if ch == 0x6D
      then (let (fg, bg) = attributes (length c.sequence) c.sequence c.foreground c.background in
          record c { foreground = fg; background = bg })
      else if ch == 0x4A
      then (if parse_or (modulus - 1) 0 (get_or c.sequence 0 []) == 2
          then record (on_display (fill c.background) c) { point_x = 0; point_y = 0; redraw = true }
          else c)
      else if (ch == 0x48) || (ch == 0x66)
      then (let c1 = on_display (rect modulus c.point_x c.point_y 8 16 c.background) c in
          let c2 : Console = record c1 {
            point_y = coordinate 0 16 c.sequence;
            point_x = coordinate 1 8 c.sequence;
            redraw = true;
          } in
          on_display (rect modulus c2.point_x c2.point_y 8 16 c2.foreground) c2)
      else if ch == 0x72
      then record c { raw_mode = true }
      else if ch == 0x52
      then record c { raw_mode = false }
      else c

  pub code : ℕ → Console → Console
  unfolding push_last control finish on_display ansi_color
  code ch c =
      if c.escape_sequence
      then (if leb 0x30 ch && leb ch 0x39
          then record c { sequence = push_last c.sequence ch }
          else if ch == 0x3B
          then record c { sequence = c.sequence ++ [] ∷ [] }
          else finish (control ch c))
      else if ch == 0x5B
      then record c { escape_sequence = true; sequence = c.sequence ++ [] ∷ [] }
      else if ch == 0x63
      then on_display (fill (ansi_color 0)) (record c {
        point_x = 0;
        point_y = 0;
        raw_mode = false;
        foreground = ansi_color 7;
        background = ansi_color 0;
        redraw = true;
        escape = false;
      })
      else record c { escape = false }
