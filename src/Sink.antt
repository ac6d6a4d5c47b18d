-- ===== src/Sink.antt =====
-- The delivery of a run's report: sink/.
pub mod Deliver
pub mod Tests
