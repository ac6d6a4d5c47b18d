-- ===== src/Record.antt =====
-- runtime/internal/record: the tables of the run record, and the transactions over them.
pub mod Types
pub mod Db
pub mod Deliveries
pub mod Refusals
pub mod Reconcile
pub mod Accept
pub mod Waiting
pub mod Runs
pub mod Redact
pub mod Tests
