-- ===== src/Schemes.antt =====
-- kernel/schemes: the schemes that the kernel serves itself.
pub mod Pipe
