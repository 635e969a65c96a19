-- ===== src/Epoll.antt =====
-- The epoll of the socket layer: lib/sockets/epoll.c.
pub mod State
pub mod Control
pub mod Waiting
pub mod Lists
pub mod Invariant
pub mod Moves
pub mod Activation
pub mod Deactivation
pub mod Polled
pub mod Masks
pub mod Operations
pub mod Binding
pub mod Adding
pub mod Removing
pub mod Unbinding
pub mod Closing
pub mod Destroying
pub mod Controlled
pub mod Reaching
pub mod Waits
mod Tests
