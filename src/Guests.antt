-- ===== src/Guests.antt =====
-- guests: the system guests that keep state of their own.
pub mod Accountant
pub mod Scheduler
pub mod Supervisor
pub mod Cluster
mod Tests
