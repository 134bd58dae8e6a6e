-- ===== src/Common.antt =====
-- kernel/common: events, times, paths, numbers, slices, hosts and ports.
pub mod Event
pub mod Time
pub mod ParsePath
pub mod ToNum
pub mod Slice
pub mod ParseIp
