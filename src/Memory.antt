-- ===== src/Memory.antt =====
-- crates/memory: the byte level of a mapped region, and the frame header.
pub mod Bytes
pub mod Backend
pub mod Frame
mod Tests
