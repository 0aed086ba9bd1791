-- ===== src/Runtime.antt =====
-- crates/runtime: what a process may do, and what it may confer on the processes it spawns.
pub mod Authority
pub mod Delegation
mod Tests
