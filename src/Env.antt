-- ===== src/Env.antt =====
-- kernel/env: the console.
pub mod Console
