-- ===== src/Transfers/Deposits/Processor.antt =====
-- apps/transfers/src/transfers/processors/deposit-processor.service.ts. A call gives whether it went
-- through, that is, did not throw, and the world after it.
use ether_trade.Prelude.{
  ℕ, Bool, true, false, not, Option, none, some, [], ◌∷◌, ◌++◌, Text, text, text_eq, if◌then◌else◌,
}
use ether_trade.Transfers.Types.{
  DepositStatus, confirmed, credited, deposit_pending, rejected_unsupported_token,
  rejected_below_minimum, WalletDeposit, deposit_confirmed, OutboxEvent, Database, eth, usdt,
  BalanceRequest, AccountsClient, World,
}
use ether_trade.Transfers.Units.{
  Numbers, scale_evm_amount_to_platform, is_above_min_deposit_threshold, native_eth_decimals,
  usdt_decimals,
}
use ether_trade.Transfers.Uuids.{bytes16_to_uuid}
use ether_trade.Transfers.Repository.{find_deposit_by_tx_hash, create_deposit, credit_deposit_row}

-- A log of the vault: `NativeDeposited`, without a token, or `TokenDeposited`.
pub record DepositLog : Type 0 where
  pub tx_hash : Text
  pub block_number : ℕ
  pub user_bytes16 : Text
  pub token_address : Option Text
  pub raw_amount : ℕ

-- What the processing takes from outside, per log: bignumber.js; the token's address; `toLowerCase`;
-- whether the database fails an insert or the status update; the ids that are drawn, and the text of
-- an id.
pub record DepositEnv : Type 0 where
  pub numbers : Numbers
  pub usdt_token_address : Text
  pub lower_case : Text → Text
  pub insert_fails : Text → Bool
  pub update_fails : Text → Bool
  pub now : ℕ
  pub new_id : Text → ℕ
  pub event_ids : Text → ℕ × ℕ × ℕ
  pub show_id : ℕ → Text

abbrev native_eth_address : Text
native_eth_address = text "0x0000000000000000000000000000000000000000"

-- `TokenConfig`
pub record TokenConfig : Type 0 where
  pub currency : Text
  pub decimals : ℕ

abbrev native : TokenConfig
native = record { currency = eth; decimals = native_eth_decimals }

-- `resolveTokenConfig`; an empty address is falsy.
unfoldable pub resolve_token_config : DepositEnv → Option Text → Option TokenConfig
resolve_token_config env none = some native
resolve_token_config env (some []) = some native
resolve_token_config env (some (c ∷ t)) =
    if text_eq (env.lower_case (c ∷ t)) (env.lower_case native_eth_address)
    then some native
    else if text_eq (env.lower_case (c ∷ t)) (env.lower_case env.usdt_token_address)
    then some (record { currency = usdt; decimals = usdt_decimals })
    else none

abbrev pub new_deposit : DepositEnv → DepositLog → Text → Text → ℕ → DepositStatus → WalletDeposit
new_deposit env p user currency amount status = record {
  id = env.new_id p.tx_hash;
  user_id = user;
  tx_hash = p.tx_hash;
  block_number = p.block_number;
  token_address = p.token_address;
  currency = currency;
  amount = amount;
  status = status;
  created_at = env.now;
  credited_at = none;
}

abbrev pub confirmed_event : DepositEnv → WalletDeposit → OutboxEvent
confirmed_event env x = record {
  id = (env.event_ids x.tx_hash).0;
  event_id = (env.event_ids x.tx_hash).1;
  correlation_id = (env.event_ids x.tx_hash).2;
  aggregate_id = x.id;
  partition_key = x.user_id;
  timestamp = env.now;
  payload = deposit_confirmed (record {
    deposit_id = x.id;
    user_id = x.user_id;
    currency = x.currency;
    amount = x.amount;
    tx_hash = x.tx_hash;
    block_number = x.block_number;
    timestamp = env.now;
  });
}

abbrev pub credit_key : Text → Text
credit_key hash = text "deposit:" ++ hash

abbrev pub credit_request : DepositEnv → WalletDeposit → BalanceRequest
credit_request env x = record {
  user_id = x.user_id;
  amount = x.amount;
  currency = x.currency;
  idempotency_key = credit_key x.tx_hash;
  reference_id = env.show_id x.id;
}

-- An insert that fails, or that the unique hash refuses, throws.
abbrev pub insert_deposit : DepositEnv → WalletDeposit → Database → Option Database
insert_deposit env x d = if env.insert_fails x.tx_hash then none else create_deposit x d

module _ {X : Type 0} where
  abbrev pub stored : World X → Option Database → Bool × World X
  stored w none = (false, w)
  stored w (some d) = (true, record w { db = d })

  module _ (client : AccountsClient X) (env : DepositEnv) where
    -- `creditUserAccount`: an error is logged, and the row keeps its status.
    abbrev pub after_credit : WalletDeposit → World X → Option Text × X → World X
    after_credit x w (some message, a) = record w { accounts = a }
    after_credit x w (none, a) = record w {
      accounts = a;
      db = if env.update_fails x.tx_hash then w.db else credit_deposit_row env.now x.id w.db;
    }

    unfoldable pub credit_user_account : WalletDeposit → World X → World X
    unfolding credit_deposit_row
    credit_user_account x w =
        after_credit x w (client.credit_deposit_funds (credit_request env x) w.accounts)

    -- The row and its event in one transaction, and then the credit.
    abbrev pub confirm_stored : WalletDeposit → World X → Option Database → Bool × World X
    confirm_stored x w none = (false, w)
    confirm_stored x w (some d) = (
      true,
      credit_user_account x
          (record w { db = record d { outbox = d.outbox ++ confirmed_event env x ∷ [] } }),
    )

    unfoldable pub confirm : WalletDeposit → World X → Bool × World X
    unfolding credit_user_account create_deposit
    confirm x w = confirm_stored x w (insert_deposit env x w.db)

    abbrev pub with_token : DepositLog → Text → World X → Option TokenConfig → Bool × World X
    with_token p user w none = stored w (
        insert_deposit env (new_deposit env p user (text "UNKNOWN") 0 rejected_unsupported_token)
          w.db)
    with_token p user w (some token) =
        let amount = scale_evm_amount_to_platform env.numbers p.raw_amount token.decimals in
        if not (is_above_min_deposit_threshold amount)
        then stored w (
            insert_deposit env (new_deposit env p user token.currency amount rejected_below_minimum)
              w.db)
        else confirm (new_deposit env p user token.currency amount confirmed) w

    abbrev pub with_user : DepositLog → World X → Option Text → Bool × World X
    with_user p w none = (true, w)
    with_user p w (some user) = with_token p user w (resolve_token_config env p.token_address)

    -- A deposit that is confirmed and not yet credited is tried again.
    abbrev pub retried : WalletDeposit → DepositStatus → World X → World X
    retried x confirmed w = credit_user_account x w
    retried x credited w = w
    retried x deposit_pending w = w
    retried x rejected_unsupported_token w = w
    retried x rejected_below_minimum w = w

    abbrev pub with_existing : DepositLog → World X → Option WalletDeposit → Bool × World X
    with_existing p w (some x) = (true, retried x x.status w)
    with_existing p w none = with_user p w (bytes16_to_uuid p.user_bytes16)

    -- `processDepositEvent`
    unfoldable pub process_deposit_event : DepositLog → World X → Bool × World X
    unfolding find_deposit_by_tx_hash resolve_token_config confirm scale_evm_amount_to_platform
    process_deposit_event p w = with_existing p w (find_deposit_by_tx_hash p.tx_hash w.db)
