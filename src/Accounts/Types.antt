-- ===== src/Accounts/Types.antt =====
-- The tables of the accounts service (apps/accounts/src/database/schema) and the parameters and
-- results of its balance operations (apps/accounts/src/balances/balances.types.ts).
use ether_trade.Prelude.{ℕ, Option, List, Text}
use ether_trade.Prelude.Int.{ℤ}

pub data LedgerType : Type 0 where
  deposit lock unlock on_chain_deposit withdrawal trade_settlement : LedgerType

-- `===` on ledger types.
abbrev pub type_code : LedgerType → ℕ
type_code deposit = 0
type_code lock = 1
type_code unlock = 2
type_code on_chain_deposit = 3
type_code withdrawal = 4
type_code trade_settlement = 5

-- Balances and amounts count units of 10^-8, the scale of the numeric(28, 8) columns.
pub record Account : Type 0 where
  pub id : ℕ
  pub user_id : ℕ
  pub currency : Text
  pub available_balance : ℤ
  pub locked_balance : ℤ
  pub updated_at : ℕ

pub record LedgerTransaction : Type 0 where
  pub account_id : ℕ
  pub user_id : ℕ
  pub currency : Text
  pub type : LedgerType
  pub amount : ℕ
  pub available_delta : ℤ
  pub locked_delta : ℤ
  pub balance_after_available : ℤ
  pub balance_after_locked : ℤ
  pub idempotency_key : Option Text
  pub reference_id : Option Text

pub record ProcessedEvent : Type 0 where
  pub event_id : ℕ
  pub event_type : Text
  pub consumer_group : Text
  pub processed_at : ℕ

pub record Database : Type 0 where
  pub accounts : List Account
  pub ledger : List LedgerTransaction
  pub processed_events : List ProcessedEvent

-- `DepositParams`, `LockParams` and their like in one; a deposit has no reference.
pub record Params : Type 0 where
  pub user_id : ℕ
  pub currency : Text
  pub amount : ℕ
  pub idempotency_key : Text
  pub reference_id : Option Text

pub data MutationResult : Type 0 where
  ok idempotent_replay : Account → MutationResult
  not_found idempotency_payload_mismatch : MutationResult
  insufficient_available insufficient_locked : ℤ → MutationResult

-- What one call takes from outside: the id that uuidv7 draws for a new account, the time, and
-- what other transactions commit while the call waits for its row lock and before it inserts.
pub record Env : Type 0 where
  pub new_id : ℕ
  pub now : ℕ
  pub while_locking : Database → Database
  pub before_insert : Database → Database
