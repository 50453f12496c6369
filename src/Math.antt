-- ===== src/Math.antt =====
-- program/src/math.rs: the arithmetic of the pool.
pub mod Ceil
pub mod Decimals
pub mod Swap
pub mod OrderSize
pub mod Fibonacci
pub mod Invariant
pub mod Vault
pub mod Tests
