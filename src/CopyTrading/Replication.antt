-- ===== src/CopyTrading/Replication.antt =====
-- apps/copy-trading/src/consumers and apps/copy-trading/src/lock.
pub mod Lock
pub mod Types
pub mod Follower
pub mod Messages
pub mod Positions
pub mod Coverage
pub mod Liveness
pub mod Once
