-- ===== src/Core.antt =====
-- The runtime's parts (src/core).
pub mod Services
pub mod Degradation
