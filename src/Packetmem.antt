-- ===== src/Packetmem.antt =====
-- The packet memory allocator, tas_nic/slow/packetmem.c (tas_host/packetmem.c is the same code but
-- for its includes).
pub mod Freelist
pub mod Cover
pub mod System
pub mod Fit
mod Tests
