-- ===== src/Accounts/Service.antt =====
-- apps/accounts/src/balances/balances.service.ts: the amounts of requests, the operations, and what
-- both promise.
pub mod Amounts
pub mod RoundTrip
pub mod Requests
pub mod Guard
mod Tests
