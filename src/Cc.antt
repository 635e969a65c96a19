-- ===== src/Cc.antt =====
-- Congestion control on the slow path: tas_nic/slow/cc.c, and the sleep of tas_nic/slow/kernel.c.
pub mod State
pub mod Dctcp
pub mod Timely
pub mod Control
pub mod Bounds
pub mod Windows
pub mod Rates
pub mod Silence
pub mod Rounds
pub mod Members
pub mod Sleeping
pub mod Backing
mod Tests
