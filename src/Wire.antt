-- ===== src/Wire.antt =====
-- crates/wire: the messaging patterns over a transport of frames.
pub mod Topic
pub mod Tables
pub mod LiveTable
pub mod Subscriber
pub mod Framed
pub mod Writes
pub mod Rpc
mod Tests
mod FrameTests
