-- ===== src/Accounts/Settlement.antt =====
-- apps/accounts/src/consumers: the settlement of an executed trade, with its calculation in
-- utils/trades-settlement.util.ts and the table of processed events.
pub mod Calculation
pub mod Posting
pub mod Messages
pub mod Outcome
pub mod Books
pub mod Funds
