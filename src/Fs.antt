-- ===== src/Fs.antt =====
-- kernel/fs: URLs, resources, and schemes that a program serves.
pub mod Url
pub mod VecResource
pub mod Scheme
