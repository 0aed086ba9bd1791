-- ===== src/Abi.antt =====
-- crates/abi: the types that the host and its guests share.
pub mod Classes
pub mod Endpoint
pub mod Grants
pub mod Framing
pub mod Uri
pub mod Names
mod Tests
