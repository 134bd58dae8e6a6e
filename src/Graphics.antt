-- ===== src/Graphics.antt =====
-- kernel/graphics: colors and the display.
pub mod Color
pub mod Display
