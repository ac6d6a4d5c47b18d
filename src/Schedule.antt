-- ===== src/Schedule.antt =====
-- schedule/: the scheduler's ticks.
pub mod Tick
pub mod Tests
