-- ===== src/Config.antt =====
-- config/: the references of a text, their resolution, and the binding of a shell line.
pub mod Reference
pub mod Interpolate
pub mod Shell
pub mod Tests
