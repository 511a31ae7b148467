-- ===== src/Orders/Outbox.antt =====
-- apps/orders/src/outbox: the table of events, the relay that publishes them, and what it promises.
pub mod Types
pub mod Repository
pub mod Relay
pub mod Delivery
pub mod Retention
mod Tests
