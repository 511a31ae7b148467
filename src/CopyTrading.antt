-- ===== src/CopyTrading.antt =====
-- apps/copy-trading/src.
pub mod Types
pub mod Repository
pub mod Calculator
pub mod Caches
pub mod Service
pub mod Replication
pub mod Sample
mod Tests
