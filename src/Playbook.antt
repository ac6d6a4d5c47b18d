-- ===== src/Playbook.antt =====
-- playbook/: the values that a webhook's delivery carries, and the gate's rules.
pub mod Pointer
pub mod Values
pub mod Scope
pub mod Tools
pub mod Retrieval
pub mod Tests
