-- ===== src/Flows.antt =====
-- The TCP data path of tas_nic/fast/fast_flows.c.
pub mod State
pub mod Buffer
pub mod Send
pub mod Receive
pub mod Packet
mod Slots
mod Ring
mod Overlap
pub mod Reassembly
pub mod Delivery
pub mod Merging
pub mod Sending
pub mod Acks
pub mod InOrder
mod Tests
