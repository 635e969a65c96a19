-- ===== src/Tcp.antt =====
-- TCP on the fast path: the window checks of tas_nic/fast/tcp_common.h.
pub mod Window
pub mod Trim
pub mod Accept
pub mod Options
pub mod Scan
mod Tests
