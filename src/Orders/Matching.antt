-- ===== src/Orders/Matching.antt =====
-- apps/orders/src/orders/matching-engine.service.ts: the loop over the opposing orders, what is
-- done around it, and what it promises.
pub mod Loop
pub mod Engine
pub mod Spec
pub mod Fills
pub mod Rows
pub mod Consistency
pub mod Taker
pub mod Priority
