-- ===== src/Qman.antt =====
-- The queue manager of the fast path: tas_nic/fast/qman.c.
pub mod Times
pub mod Thread
pub mod Fifo
pub mod Skiplist
pub mod Polling
pub mod Same
pub mod Conserved
pub mod Ends
mod Tests
