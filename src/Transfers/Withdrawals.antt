-- ===== src/Transfers/Withdrawals.antt =====
-- Withdrawals: apps/transfers/src/transfers/transfers.service.ts and
-- apps/transfers/src/transfers/processors/withdrawal-processor.service.ts.
pub mod Request
pub mod Processor
pub mod Rows
pub mod Backing
pub mod Worker
pub mod Invariant
pub mod Steps
