-- ===== src/Ingress.antt =====
-- runtime/internal/ingress: what follows the acceptance of a delivery.
pub mod HandOff
pub mod Signature
pub mod Serve
pub mod Tests
