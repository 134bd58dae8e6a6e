-- ===== src/Context.antt =====
-- Contexts (processes and threads) of kernel/arch/context.rs, with the system calls of
-- kernel/syscall that change them.
pub mod Files
pub mod Manager
pub mod Memory
pub mod Process
