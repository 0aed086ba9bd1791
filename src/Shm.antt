-- ===== src/Shm.antt =====
-- crates/shm: ring channels on shared memory.
pub mod Error
pub mod Layout
pub mod Channels
pub mod Readers
mod Tests
