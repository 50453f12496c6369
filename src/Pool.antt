-- ===== src/Pool.antt =====
-- program/src/processor.rs: the instructions of the pool.
pub mod Pnl
pub mod Runtime
pub mod Tokens
pub mod Liquidity
pub mod Book
pub mod Orders
pub mod CancelOrders
pub mod AdminCancel
pub mod Config
pub mod SetParams
pub mod Swap
pub mod Tests
