-- ===== src/Pool/Tests.antt =====
-- Runs of the instructions of program/src/processor.rs.
pub mod World
pub mod Swaps
pub mod Orders
pub mod SetParams
pub mod Liquidity
pub mod Config
