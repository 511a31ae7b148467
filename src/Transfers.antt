-- ===== src/Transfers.antt =====
-- apps/transfers/src.
pub mod Types
pub mod Units
pub mod Repository
pub mod Uuids
pub mod Withdrawals
pub mod Deposits
pub mod Sample
mod Tests
