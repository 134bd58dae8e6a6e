-- ===== src/Graphics/Color.antt =====
-- kernel/graphics/color.rs: a color is its 32 bits of data.
use redox.Prelude.{ℕ, ◌+◌, ◌*◌}

-- `Color::new`, of three bytes, whose bits do not overlap.
unfoldable pub color : (r g b : ℕ) → ℕ
color r g b = 0xFF00_0000 + r * 65_536 + g * 256 + b
