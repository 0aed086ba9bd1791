-- ===== src/Kernel.antt =====
-- crates/kernel: the registries of the host. Each is behind a lock, so an operation is one step.
pub mod Error
pub mod Ids
pub mod Quota
pub mod Queues
pub mod Storage
pub mod Datagram
pub mod Processes
mod Tests
