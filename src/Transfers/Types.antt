-- ===== src/Transfers/Types.antt =====
-- The tables of apps/transfers/src/database/schema, the events of
-- libs/contracts/src/events/transfers.events.ts, and the accounts service as apps/transfers sees it.
-- Amounts are numbers of units of 10^-8; on-chain amounts are numbers of the token's smallest unit.
use ether_trade.Prelude.{ℕ, Option, List, Text, text, text_eq, ◌&&◌, if◌then◌else◌}

pub data WithdrawalStatus : Type 0 where
  pending processing completed failed : WithdrawalStatus

pub data DepositStatus : Type 0 where
  confirmed credited deposit_pending : DepositStatus
  rejected_unsupported_token rejected_below_minimum : DepositStatus

pub record WithdrawalRequest : Type 0 where
  pub id : ℕ
  pub user_id : Text
  pub idempotency_key : Text
  pub destination_address : Text
  pub currency : Text
  pub amount : ℕ
  pub tx_hash : Option Text
  pub nonce : Option ℕ
  pub status : WithdrawalStatus
  pub error_message : Option Text
  pub created_at : ℕ
  pub processed_at : Option ℕ

pub record WalletDeposit : Type 0 where
  pub id : ℕ
  pub user_id : Text
  pub tx_hash : Text
  pub block_number : ℕ
  pub token_address : Option Text
  pub currency : Text
  pub amount : ℕ
  pub status : DepositStatus
  pub created_at : ℕ
  pub credited_at : Option ℕ

pub record DepositConfirmedEvent : Type 0 where
  pub deposit_id : ℕ
  pub user_id : Text
  pub currency : Text
  pub amount : ℕ
  pub tx_hash : Text
  pub block_number : ℕ
  pub timestamp : ℕ

pub record WithdrawalCompletedEvent : Type 0 where
  pub withdrawal_id : ℕ
  pub user_id : Text
  pub currency : Text
  pub amount : ℕ
  pub tx_hash : Text
  pub timestamp : ℕ

pub record WithdrawalFailedEvent : Type 0 where
  pub withdrawal_id : ℕ
  pub user_id : Text
  pub currency : Text
  pub amount : ℕ
  pub tx_hash : Text
  pub reason : Text
  pub timestamp : ℕ

pub data Body : Type 0 where
  deposit_confirmed : DepositConfirmedEvent → Body
  withdrawal_completed : WithdrawalCompletedEvent → Body
  withdrawal_failed : WithdrawalFailedEvent → Body

-- A row of the outbox as it is inserted: pending, with no retries. The event's action and type follow
-- from its body.
pub record OutboxEvent : Type 0 where
  pub id : ℕ
  pub event_id : ℕ
  pub correlation_id : ℕ
  pub aggregate_id : ℕ
  pub partition_key : Text
  pub timestamp : ℕ
  pub payload : Body

-- `scanner` has the last scanned block of a chain.
pub record Database : Type 0 where
  pub deposits : List WalletDeposit
  pub withdrawals : List WithdrawalRequest
  pub scanner : List (ℕ × ℕ)
  pub outbox : List OutboxEvent

abbrev pub eth : Text
eth = text "ETH"

abbrev pub usdt : Text
usdt = text "USDT"

-- `lockBalance`, `unlockBalance`, `debitWithdrawalFunds` and `creditDepositFunds`
pub record BalanceRequest : Type 0 where
  pub user_id : Text
  pub amount : ℕ
  pub currency : Text
  pub idempotency_key : Text
  pub reference_id : Text

-- What a request is about: its amount for its user and currency, and nothing for others.
abbrev pub share : BalanceRequest → Text → Text → ℕ
share r user currency =
    if text_eq user r.user_id && text_eq currency r.currency then r.amount else 0

-- The accounts service as its client sees it: an error message or nothing, and its next state.
pub record AccountsClient (X : Type 0) : Type 0 where
  pub lock_balance : BalanceRequest → X → Option Text × X
  pub unlock_balance : BalanceRequest → X → Option Text × X
  pub debit_withdrawal_funds : BalanceRequest → X → Option Text × X
  pub credit_deposit_funds : BalanceRequest → X → Option Text × X

-- A payment that the hot wallet has broadcast.
pub record Payment : Type 0 where
  pub hash : Text
  pub currency : Text
  pub to : Text
  pub amount : ℕ

pub record World (X : Type 0) : Type 0 where
  pub db : Database
  pub accounts : X
  pub sent : List Payment
