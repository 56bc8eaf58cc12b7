-- ===== src/Trading.antt =====
-- The trading loop's parts (src/trading).
pub mod Candles
pub mod RateLimiter
pub mod OrderData
pub mod TrailingStops
pub mod Orders
