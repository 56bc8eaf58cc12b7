-- ===== src/CopyTrading.antt =====
-- The parts that copy other traders (src/copy_trading).
pub mod Engine
pub mod Allocation
pub mod Ranking
