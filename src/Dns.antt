-- ===== src/Dns.antt =====
-- crates/proto-dns: DNS messages.
pub mod Wire
pub mod Response
mod Tests
