-- ===== src/Orders.antt =====
-- apps/orders/src: the orders service, its order book, its matching engine and its outbox.
pub mod Types
pub mod Repository
pub mod Orderbook
pub mod Matching
pub mod Outbox
pub mod Service
mod Tests
