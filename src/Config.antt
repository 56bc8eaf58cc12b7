-- ===== src/Config.antt =====
-- The configuration's parts (src/config).
pub mod MarketHours
