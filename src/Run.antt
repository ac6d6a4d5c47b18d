-- ===== src/Run.antt =====
-- The single-host coordinator of run/.
pub mod FileLock
pub mod Parts
pub mod Past
pub mod Execute
pub mod Replay
pub mod Tests
