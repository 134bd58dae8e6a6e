-- ===== src/Env/Console/Write.antt =====
-- What is written to the console of kernel/env/console.rs, and the keys that are pressed.
pub mod Text
pub mod Sequence
pub mod Color
pub mod Line
mod Tests
use redox.Prelude.{
  ℕ, zero, suc, ◌+◌, ◌-◌, ◌*◌, ◌/◌, ◌%◌, Bool, true, false, ◌&&◌, List, [], ◌∷◌, ◌++◌, Option, none,
  some, ltb, leb, ◌==◌, if◌then◌else◌,
}
use redox.Graphics.Display.{Display, flip}
use redox.Common.Event.{
  Event, KeyEvent, EventOption, mouse, key, quit, unknown, no_event, to_option,
}
use redox.Env.Console.{Console, on_display, code}
use redox.Env.Console.Screen.{character}

-- What raw mode adds to the command for a key.
pub raw_input : KeyEvent → List ℕ
raw_input k =
    if k.scancode == 0x0E
    then 8 ∷ []
    else if k.scancode == 0x48
    then 0x1B ∷ 0x5B ∷ 0x41 ∷ []
    else if k.scancode == 0x50
    then 0x1B ∷ 0x5B ∷ 0x42 ∷ []
    else if k.scancode == 0x4D
    then 0x1B ∷ 0x5B ∷ 0x43 ∷ []
    else if k.scancode == 0x4B
    then 0x1B ∷ 0x5B ∷ 0x44 ∷ []
    else if k.character == 0
    then []
    else k.character ∷ []

-- `self.commands.send`, of the command that `mem::swap` takes.
pub send_command : Console → Console
send_command c = record c { commands = c.commands ++ c.command ∷ []; command = [] }

pub is_empty {ℓ} : {A : Type ℓ} → List A → Bool
is_empty [] = true
is_empty (x ∷ xs) = false

-- `String::pop`
pub pop {ℓ} : {A : Type ℓ} → List A → List A
pop [] = []
pop (x ∷ []) = []
pop (x ∷ y ∷ rest) = x ∷ pop (y ∷ rest)

-- The serial port gets the byte, and behind a backspace a space and another one.
pub sent : ℕ → Console → Console
sent byte c = record c { serial = c.serial ++ (if byte == 8 then 8 ∷ 0x20 ∷ 8 ∷ [] else byte ∷ []) }

module _ (modulus : ℕ) (font : ℕ → ℕ) where
  -- One round of the loop of `write`.
  pub write_byte : ℕ → Console → Console
  unfolding character code sent
  write_byte byte c =
      sent byte (if c.escape then code modulus byte c else character modulus font byte c)

  pub write_bytes : List ℕ → Console → Console
  unfolding write_byte
  write_bytes [] c = c
  write_bytes (byte ∷ bytes) c = write_bytes bytes (write_byte byte c)

  pub write : List ℕ → Console → Console
  unfolding write_bytes on_display
  write bytes c =
      let c' = write_bytes bytes c in
      if c'.draw && c'.redraw then on_display flip (record c' { redraw = false }) else c'

  pub press_raw : KeyEvent → Console → Console
  unfolding raw_input send_command is_empty
  press_raw k c =
      let c' : Console = record c { command = c.command ++ raw_input k } in
      if is_empty c'.command then c' else send_command c'

  -- The backspace key.
  pub erase : Console → Console
  unfolding is_empty pop write
  erase c =
      let c' = write (8 ∷ []) (record c { redraw = true }) in
      if is_empty c.command then c else record c' { command = pop c'.command }

  pub type_character : ℕ → Console → Console
  unfolding send_command write
  type_character ch c =
      let c1 = write (ch % 256 ∷ []) (record c { redraw = true }) in
      let c2 : Console = record c1 { command = c1.command ++ ch ∷ [] } in
      if ch == 0x0A then send_command c2 else c2

  -- A key that is pressed.
  pub press : KeyEvent → Console → Console
  unfolding press_raw erase type_character
  press k c =
      if c.raw_mode
      then press_raw k c
      else if k.scancode == 0x0E
      then erase c
      else if k.character == 0
      then c
      else type_character k.character c

  pub event : Event → Console → Console
  unfolding press
  event e c = elim (to_option e) [
    | mouse m ↦ c
    | key k ↦ if k.pressed then press k c else c
    | quit ↦ c
    | unknown u ↦ c
    | no_event ↦ c
  ]
