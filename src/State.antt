-- ===== src/State.antt =====
-- program/src/state.rs: the accounts that the program owns.
pub mod AmmStatus
pub mod AmmState
pub mod AmmParams
pub mod AmmResetFlag
pub mod SimulateParams
pub mod Fees
pub mod AmmConfig
pub mod AmmInfo
pub mod Tests
