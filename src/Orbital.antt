-- ===== src/Orbital.antt =====
-- crates/orbital: rectangles, images and windows of the window server.
pub mod Image
pub mod Rect
pub mod Window
mod Tests
