-- ===== src/Guard.antt =====
-- runtime/internal/guard: whether a trigger becomes a run, and the holding of its claim.
pub mod Clock
pub mod Config
pub mod Coordinator
pub mod Etcd
pub mod Hold
pub mod Load
pub mod Instance
pub mod Stop
pub mod Wait
pub mod Tests
