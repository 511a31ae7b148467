-- ===== src/Accounts.antt =====
-- The accounts service: balances and their ledger, the validation of requests, and the settlement
-- of trades.
pub mod Types
pub mod Repository
pub mod Service
pub mod Settlement
mod Tests
