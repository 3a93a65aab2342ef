-- ===== src/State.antt =====
-- internal/state: the in-memory backend of the Store interface, one module for each concern.
pub mod Types
pub mod Leases
pub mod Idempotency
pub mod Approvals
pub mod EventLog
pub mod Journal
pub mod Records
pub mod Memory
