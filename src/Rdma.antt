-- ===== src/Rdma.antt =====
-- The byte queues of include/rdma_queue.h and lib/utils/rdma_queue.c.
pub mod Ring
pub mod Verbs
pub mod Ops
pub mod Bounds
pub mod Fifo
pub mod Contents
pub mod Local
pub mod Peer
pub mod Overshoot
pub mod Reserve
mod Tests
