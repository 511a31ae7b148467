-- ===== src/Transfers/Withdrawals/Processor.antt =====
-- apps/transfers/src/transfers/processors/withdrawal-processor.service.ts: the worker's step and the
-- recovery at the start. The chain is what the RPC client answers; the loop's timers are left out.
use ether_trade.Prelude.{
  ℕ, Bool, Option, none, some, List, [], ◌∷◌, ◌++◌, Text, text, text_eq, if◌then◌else◌, take,
}
use ether_trade.Transfers.Types.{
  WithdrawalRequest, Body, withdrawal_completed, withdrawal_failed, OutboxEvent, Database, eth,
  usdt, BalanceRequest, AccountsClient, Payment, World,
}
use ether_trade.Transfers.Units.{
  Numbers, scale_platform_amount_to_evm, native_eth_decimals, usdt_decimals,
}
use ether_trade.Transfers.Repository.{
  find_processing_withdrawals_with_tx_hash, Fetch, lock_next_pending_withdrawal,
  update_withdrawal_tx, complete_withdrawal_row, fail_withdrawal_row,
}

-- `sendTransaction` or `writeContract`: the hash, or an error's message.
pub data Sent : Type 0 where
  broadcast : Text → Sent
  not_sent : Text → Sent

pub data Receipt : Type 0 where
  success reverted : Receipt
  -- the query or the wait throws
  no_receipt : Text → Receipt

-- What the handling of one request takes from outside: bignumber.js; what the chain answers to a
-- payment and for the hash of a transaction; the error of the update with the hash; whether the
-- two transactions commit; the ids that are drawn, and the text of an id in decimals.
pub record ChainEnv : Type 0 where
  pub numbers : Numbers
  pub send : Text → Text → ℕ → Sent
  pub receipt : Text → Receipt
  pub update_error : Option Text
  pub completes : Bool
  pub fails : Bool
  pub now : ℕ
  pub event_ids : ℕ × ℕ × ℕ
  pub show_id : ℕ → Text

-- The fields that the calls pass along.
pub record Withdrawal : Type 0 where
  pub id : ℕ
  pub user_id : Text
  pub amount : ℕ
  pub currency : Text
  pub destination_address : Text
  pub idempotency_key : Text

abbrev pub of_row : WithdrawalRequest → Withdrawal
of_row x = record {
  id = x.id;
  user_id = x.user_id;
  amount = x.amount;
  currency = x.currency;
  destination_address = x.destination_address;
  idempotency_key = x.idempotency_key;
}

abbrev pub event_for : ChainEnv → Withdrawal → Body → OutboxEvent
event_for env x body = record {
  id = env.event_ids.0;
  event_id = env.event_ids.1;
  correlation_id = env.event_ids.2;
  aggregate_id = x.id;
  partition_key = x.user_id;
  timestamp = env.now;
  payload = body;
}

abbrev pub completed_event : ChainEnv → Withdrawal → Text → OutboxEvent
completed_event env x hash = event_for env x (
    withdrawal_completed (record {
      withdrawal_id = x.id;
      user_id = x.user_id;
      currency = x.currency;
      amount = x.amount;
      tx_hash = hash;
      timestamp = env.now;
    }))

abbrev pub failed_event : ChainEnv → Withdrawal → Text → OutboxEvent
failed_event env x reason = event_for env x (
    withdrawal_failed (record {
      withdrawal_id = x.id;
      user_id = x.user_id;
      currency = x.currency;
      amount = x.amount;
      tx_hash = [];
      reason = take 255 reason;
      timestamp = env.now;
    }))

abbrev pub debit_request : ChainEnv → Withdrawal → BalanceRequest
debit_request env x = record {
  user_id = x.user_id;
  amount = x.amount;
  currency = x.currency;
  idempotency_key = text "withdrawal-debit:" ++ env.show_id x.id;
  reference_id = env.show_id x.id;
}

abbrev pub unlock_request : ChainEnv → Withdrawal → BalanceRequest
unlock_request env x = record {
  user_id = x.user_id;
  amount = x.amount;
  currency = x.currency;
  idempotency_key = text "withdrawal-unlock:" ++ x.idempotency_key;
  reference_id = env.show_id x.id;
}

abbrev pub with_event : OutboxEvent → Database → Database
with_event e d = record d { outbox = d.outbox ++ e ∷ [] }

module _ {X : Type 0} (client : AccountsClient X) (env : ChainEnv) where
  -- `completeWithdrawal`: a debit that fails leaves the row as it is, as does a rollback.
  abbrev pub after_debit : Withdrawal → Text → World X → Option Text × X → World X
  after_debit x hash w (some message, a) = record w { accounts = a }
  after_debit x hash w (none, a) =
      let d = with_event (completed_event env x hash) (complete_withdrawal_row env.now x.id w.db) in
      record w { accounts = a; db = if env.completes then d else w.db }

  unfoldable pub complete_withdrawal : Withdrawal → Text → World X → World X
  unfolding complete_withdrawal_row
  complete_withdrawal x hash w =
      after_debit x hash w (client.debit_withdrawal_funds (debit_request env x) w.accounts)

  -- `failWithdrawal`: the row fails whether or not the unlock succeeds.
  unfoldable pub fail_withdrawal : Withdrawal → Text → World X → World X
  unfolding fail_withdrawal_row
  fail_withdrawal x reason w =
      let d =
        with_event (failed_event env x reason)
          (fail_withdrawal_row env.now x.id (take 255 reason) w.db) in
      record w {
        accounts = (client.unlock_balance (unlock_request env x) w.accounts).1;
        db = if env.fails then d else w.db;
      }

  abbrev pub after_receipt : Withdrawal → Text → World X → Receipt → World X
  after_receipt x hash w success = complete_withdrawal x hash w
  after_receipt x hash w reverted = fail_withdrawal x (text "Transaction reverted") w
  after_receipt x hash w (no_receipt message) = fail_withdrawal x message w

  -- The on-chain amount by the currency; none for another currency.
  abbrev pub evm_amount : Withdrawal → Option ℕ
  evm_amount x =
      if text_eq x.currency eth
      then some (scale_platform_amount_to_evm env.numbers x.amount native_eth_decimals)
      else if text_eq x.currency usdt
      then some (scale_platform_amount_to_evm env.numbers x.amount usdt_decimals)
      else none

  abbrev pub payment : Withdrawal → Text → ℕ → Payment
  payment x hash amount = record {
    hash = hash;
    currency = x.currency;
    to = x.destination_address;
    amount = amount;
  }

  -- What follows a payment that was broadcast: the hash is recorded, and the receipt awaited. An
  -- error of either ends in the catch, which fails the withdrawal.
  abbrev pub after_update : Withdrawal → Text → World X → Option Text → World X
  after_update x hash w (some message) = fail_withdrawal x message w
  after_update x hash w none =
      after_receipt x hash (record w { db = update_withdrawal_tx x.id hash 0 w.db })
        (env.receipt hash)

  abbrev pub after_send : Withdrawal → ℕ → World X → Sent → World X
  after_send x amount w (not_sent message) = fail_withdrawal x message w
  after_send x amount w (broadcast hash) =
      after_update x hash (record w { sent = w.sent ++ payment x hash amount ∷ [] })
        env.update_error

  abbrev pub send_amount : Withdrawal → World X → Option ℕ → World X
  send_amount x w none =
      fail_withdrawal x (text "Unsupported withdrawal currency: " ++ x.currency) w
  send_amount x w (some amount) =
      after_send x amount w (env.send x.currency x.destination_address amount)

  -- `executeOnChainWithdrawal`
  unfoldable pub execute_on_chain_withdrawal : Withdrawal → World X → World X
  unfolding complete_withdrawal fail_withdrawal update_withdrawal_tx scale_platform_amount_to_evm
  execute_on_chain_withdrawal x w = send_amount x w (evm_amount x)

  abbrev pub process_picked : World X → Option WithdrawalRequest × Database → World X
  process_picked w (none, d) = w
  process_picked w (some x, d) = execute_on_chain_withdrawal (of_row x) (record w { db = d })

  -- `processNextWithdrawal`
  unfoldable pub process_next_withdrawal : Fetch → World X → World X
  unfolding lock_next_pending_withdrawal execute_on_chain_withdrawal
  process_next_withdrawal f w = process_picked w (lock_next_pending_withdrawal f w.db)

  -- `recoverStuckProcessingWithdrawals`: a receipt that is not there leaves the row.
  abbrev pub recovered : WithdrawalRequest → Text → World X → Receipt → World X
  recovered x hash w success = complete_withdrawal (of_row x) hash w
  recovered x hash w reverted = fail_withdrawal (of_row x) (text "Transaction reverted on-chain") w
  recovered x hash w (no_receipt message) = w

  abbrev pub recover_one : WithdrawalRequest → Option Text → World X → World X
  recover_one x none w = w
  recover_one x (some hash) w = recovered x hash w (env.receipt hash)

  unfoldable pub recover_all : List WithdrawalRequest → World X → World X
  unfolding complete_withdrawal fail_withdrawal
  recover_all [] w = w
  recover_all (x ∷ xs) w = recover_all xs (recover_one x x.tx_hash w)

  unfoldable pub recover_stuck_processing_withdrawals : World X → World X
  unfolding recover_all find_processing_withdrawals_with_tx_hash
  recover_stuck_processing_withdrawals w =
      recover_all (find_processing_withdrawals_with_tx_hash w.db) w
