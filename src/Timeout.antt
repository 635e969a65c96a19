-- ===== src/Timeout.antt =====
-- The timeout manager, lib/utils/timeout.c.
pub mod Clock
pub mod Manager
pub mod Order
pub mod Moves
pub mod Calls
mod Tests
