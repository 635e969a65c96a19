-- ===== src/Resolve.antt =====
-- From an IP address to a MAC address: tas_nic/slow/routing.c and tas_nic/slow/arp.c.
pub mod Routing
pub mod Arp
pub mod Waiting
mod Tests
