-- ===== src/Trading.antt =====
-- Computing-Server: the indicators of AlgoEngine-Core and the trading bots.
pub mod Double
pub mod Candle
pub mod Bounds
pub mod BackTester
pub mod Indicator
pub mod Bot
pub mod Tests
pub mod Risk
