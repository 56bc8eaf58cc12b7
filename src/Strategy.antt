-- ===== src/Strategy.antt =====
-- The strategy engine's parts (src/strategy).
pub mod Overtrading
pub mod Performance
