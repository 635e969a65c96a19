-- ===== src/Conn.antt =====
-- Connections of the slow path: tas_nic/slow/tcp.c.
pub mod Ports
pub mod State
pub mod Table
pub mod Handlers
pub mod Invariant
pub mod Keeps
pub mod Events
pub mod Options
pub mod Lookup
pub mod Listener
pub mod Backlog
pub mod Accepting
pub mod Opening
pub mod Opened
pub mod Dispatch
pub mod Dispatching
pub mod Answers
pub mod Release
mod Tests
