-- ===== src/System.antt =====
-- crates/system: what the kernel and programs share.
pub mod Error
pub mod Packet
