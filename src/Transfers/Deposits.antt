-- ===== src/Transfers/Deposits.antt =====
-- Deposits: apps/transfers/src/transfers/processors/deposit-processor.service.ts and
-- apps/transfers/src/transfers/blockchain/deposit-scanner.service.ts.
pub mod Processor
pub mod Scanner
pub mod Credits
pub mod Accounted
pub mod Once
pub mod Missed
pub mod Ranges
pub mod Complete
