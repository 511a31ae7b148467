-- ===== src/Accounts/Tests.antt =====
-- The theorems of the accounts service at concrete databases: a deposit that is retried, a key that
-- another transaction uses first, and the settlement of one trade
-- (apps/accounts/src/balances and apps/accounts/src/consumers).
use ether_trade.Prelude.{
  ℕ, ◌≡◌, refl, Bool, true, false, none, [], ◌∷◌, text, arith, if◌then◌else◌, text_eq, update_where,
  select_first,
}
use ether_trade.Prelude.Int.{pos, ◌+ℤ◌}
use ether_trade.Decimal.{round_down}
use ether_trade.Transaction.{value}
use ether_trade.Accounts.Types.{LedgerType, Account, ProcessedEvent, Database, Params, ok, Env}
use ether_trade.Accounts.Repository.Queries.{
  ledger_row, resolve_replay, lock_or_create_account, lock_account, create_if_missing,
  find_by_user_and_currency, record_ledger, find_ledger_by_idempotency_key,
}
use ether_trade.Accounts.Repository.Books.{ledger_available, ledger_locked}
use ether_trade.Accounts.Repository.Operations.{deposit, deposit_fresh, post_credit}
use ether_trade.Accounts.Repository.Spec.{deposits, perform, promised}
use ether_trade.Accounts.Repository.Refines.{perform-promised}
use ether_trade.Accounts.Repository.Invariant.{IsValid, IsSound, perform-IsValid}
use ether_trade.Accounts.Repository.Once.{Unposted, perform_once}
use ether_trade.Accounts.Repository.Funds.{funds_in, external, perform_funds}
use ether_trade.Accounts.Settlement.Calculation.{
  Trade, AccountIds, calculate_settlement_amounts, SettlementAmounts,
}
use ether_trade.Accounts.Settlement.Posting.{settle, is_event_processed}
use ether_trade.Accounts.Settlement.Outcome.{posted, settle-outcome}
use ether_trade.Accounts.Settlement.Books.{IsReconciled, settle-IsReconciled, settle_once}
use ether_trade.Accounts.Settlement.Funds.{Participants, settle_funds}

abbrev usdt_account : ℕ → Account
usdt_account available = record {
  id = 1;
  user_id = 7;
  currency = text "USDT";
  available_balance = pos available;
  locked_balance = pos 0;
  updated_at = 5;
}

abbrev deposit_of_100 : Params
deposit_of_100 = record {
  user_id = 7;
  currency = text "USDT";
  amount = 100;
  idempotency_key = text "k1";
  reference_id = none;
}

abbrev before : Database
before = record { accounts = usdt_account 0 ∷ []; ledger = []; processed_events = [] }

abbrev after : Database
after = record {
  accounts = usdt_account 100 ∷ [];
  ledger =
      ledger_row deposit_of_100 LedgerType.deposit (pos 100) (pos 0) none (usdt_account 100) ∷ [];
  processed_events = [];
}

abbrev quiet : Env
quiet = record { new_id = 2; now = 5; while_locking = λ d. d; before_insert = λ d. d }

-- Another transaction makes the same deposit while the call waits.
abbrev raced : Env
raced = record { new_id = 2; now = 5; while_locking = λ d. after; before_insert = λ d. d }

before-IsValid : IsValid before
unfolding ledger_available ledger_locked ◌+ℤ◌
before-IsValid = record {
  unique = (tt, tt);
  reconciled = (record { available = refl; locked = refl }, tt);
  covered = ((omega arith, omega arith), tt);
}

after-IsValid : IsValid after
unfolding ledger_available ledger_locked ◌+ℤ◌
after-IsValid = record {
  unique = (tt, tt);
  reconciled = (record { available = refl; locked = refl }, tt);
  covered = ((omega arith, omega arith), tt);
}

quiet-IsSound : IsSound quiet before
quiet-IsSound = record {
  others = before-IsValid;
  others_insert = before-IsValid;
  fresh = record { no_account = (λ e. omega (arith, e), tt); no_entry = tt };
}

raced-IsSound : IsSound raced before
raced-IsSound = record {
  others = after-IsValid;
  others_insert = after-IsValid;
  fresh = record {
    no_account = (λ e. omega (arith, e), tt);
    no_entry = (λ e. omega (arith, e), tt);
  };
}

deposited : perform deposits quiet deposit_of_100 before ≡ (value (ok (usdt_account 100)), after)
unfolding deposit resolve_replay find_ledger_by_idempotency_key deposit_fresh lock_or_create_account
    lock_account create_if_missing find_by_user_and_currency text_eq post_credit record_ledger ◌+ℤ◌
    update_where
deposited = refl

perform-promised_example :
    perform deposits raced deposit_of_100 before ≡ promised deposits raced deposit_of_100 before
perform-promised_example = perform-promised deposits raced deposit_of_100 before

perform-IsValid_example : IsValid (perform deposits quiet deposit_of_100 before).1
perform-IsValid_example =
    perform-IsValid deposits quiet deposit_of_100 before before-IsValid quiet-IsSound

perform_once_example : Unposted raced before (perform deposits raced deposit_of_100 before)
unfolding find_ledger_by_idempotency_key text_eq
perform_once_example = perform_once deposits raced deposit_of_100 before raced-IsSound refl refl

perform_funds_example :
    funds_in (text "USDT") after.accounts
    ≡ funds_in (text "USDT") before.accounts
      +ℤ (if text_eq (text "USDT") (text "USDT") then external deposits 100 else pos 0)
perform_funds_example =
    perform_funds deposits quiet deposit_of_100 before after (usdt_account 100) (text "USDT")
      quiet-IsSound refl refl deposited

-- A trade of 2 BTC at 30 USDT, for which the buyer has set 35 aside per BTC.
abbrev sample_trade : Trade
sample_trade = record {
  trade_id = text "t1";
  buyer_user_id = 7;
  seller_user_id = 8;
  symbol = text "BTC_USDT";
  price = 3000000000;
  quantity = 200000000;
  buyer_limit_price = 3500000000;
}

abbrev sample_amounts : SettlementAmounts
sample_amounts = record {
  quote_cost = 6000000000;
  base_quantity = 200000000;
  surplus_refund = 1000000000;
  base_currency = text "BTC";
  quote_currency = text "USDT";
}

sample_amounts_lem : calculate_settlement_amounts round_down sample_trade ≡ sample_amounts
unfolding calculate_settlement_amounts
sample_amounts_lem = refl

abbrev four : AccountIds
four = record { buyer_quote = 1; buyer_base = 2; seller_quote = 3; seller_base = 4 }

abbrev account_of : ℕ → ℕ → ℕ → Bool → Account
account_of id user locked quote = record {
  id = id;
  user_id = user;
  currency = if quote then text "USDT" else text "BTC";
  available_balance = pos 0;
  locked_balance = pos locked;
  updated_at = 5;
}

abbrev funded : Database
funded = record {
  accounts =
      account_of 1 7 7000000000 true
      ∷ account_of 2 7 0 false
      ∷ account_of 3 8 0 true
      ∷ account_of 4 8 200000000 false
      ∷ [];
  ledger = [];
  processed_events = [];
}

-- The same accounts with nothing in them, as an empty ledger has it.
abbrev unfunded : Database
unfunded = record {
  accounts =
      account_of 1 7 0 true
      ∷ account_of 2 7 0 false
      ∷ account_of 3 8 0 true
      ∷ account_of 4 8 0 false
      ∷ [];
  ledger = [];
  processed_events = [];
}

abbrev sample_event : ProcessedEvent
sample_event = record {
  event_id = 90;
  event_type = text "TRADE_EXECUTED";
  consumer_group = text "accounts-settlement-group";
  processed_at = 6;
}

funded-Participants : Participants four sample_amounts funded.accounts
unfolding select_first
funded-Participants = record {
  unique = (
    (λ e. omega (arith, e), (λ e. omega (arith, e), (λ e. omega (arith, e), tt))),
    ((λ e. omega (arith, e), (λ e. omega (arith, e), tt)), ((λ e. omega (arith, e), tt), (tt, tt))),
  );
  buyer_quote = record { row = account_of 1 7 7000000000 true; found = refl; currency = refl };
  buyer_base = record { row = account_of 2 7 0 false; found = refl; currency = refl };
  seller_base = record { row = account_of 4 8 200000000 false; found = refl; currency = refl };
  seller_quote = record { row = account_of 3 8 0 true; found = refl; currency = refl };
}

settle_funds_example :
    funds_in
      (text "USDT")
      (settle quiet sample_event sample_trade sample_amounts four funded).1.accounts
    ≡ funds_in (text "USDT") funded.accounts
settle_funds_example =
    settle_funds quiet sample_event sample_trade sample_amounts four funded (text "USDT") refl
      funded-Participants

unfunded-IsReconciled : IsReconciled unfunded
unfolding ledger_available ledger_locked
unfunded-IsReconciled = (
  record { available = refl; locked = refl },
  (
    record { available = refl; locked = refl },
    (record { available = refl; locked = refl }, (record { available = refl; locked = refl }, tt)),
  ),
)

settle-IsReconciled_example :
    IsReconciled (settle quiet sample_event sample_trade sample_amounts four unfunded).1
settle-IsReconciled_example =
    settle-IsReconciled quiet sample_event sample_trade sample_amounts four unfunded
      unfunded-IsReconciled unfunded-IsReconciled

funded_settled :
    settle quiet sample_event sample_trade sample_amounts four funded
    ≡ (value tt, posted quiet sample_event sample_trade sample_amounts four funded)
unfolding is_event_processed select_first
funded_settled = settle-outcome quiet sample_event sample_trade sample_amounts four funded

settle_once_example :
    settle raced sample_event sample_trade sample_amounts four
      (posted quiet sample_event sample_trade sample_amounts four funded)
    ≡ (value tt, posted quiet sample_event sample_trade sample_amounts four funded)
settle_once_example =
    settle_once quiet raced sample_event sample_trade sample_trade sample_amounts sample_amounts
      four four funded (posted quiet sample_event sample_trade sample_amounts four funded)
      funded_settled
