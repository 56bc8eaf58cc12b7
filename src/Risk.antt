-- ===== src/Risk.antt =====
-- The risk engine's parts (src/risk).
pub mod Drawdown
pub mod KillSwitch
pub mod Exposure
pub mod Sizing
pub mod Stops
pub mod Engine
pub mod Crisis
pub mod Hft
pub mod Sentiment
