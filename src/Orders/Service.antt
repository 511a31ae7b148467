-- ===== src/Orders/Service.antt =====
-- apps/orders/src/orders/orders.service.ts: its requests and state, the events that it writes, its
-- operations, and what they promise.
pub mod Types
pub mod Idempotency
pub mod Events
pub mod Create
pub mod Cancel
pub mod Replay
pub mod Saga
pub mod Cancellation
pub mod Sequence
mod Tests
