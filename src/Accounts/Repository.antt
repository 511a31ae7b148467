-- ===== src/Accounts/Repository.antt =====
-- apps/accounts/src/balances/balances.repository.ts: the balance operations, each one database
-- transaction.
pub mod Queries
pub mod Operations
pub mod Spec
pub mod Refines
pub mod Books
pub mod Invariant
pub mod Once
pub mod Funds
