-- ===== src/Transfers/Tests.antt =====
-- The theorems of apps/transfers/src at one user, one withdrawal and one deposit.
use ether_trade.Prelude.{
  ◌+◌, ◌/◌, ◌≡◌, refl, true, false, none, some, [], ◌∷◌, Text, text, text_eq, arith, inl,
  select_first, select_all, update_where, map,
}
use ether_trade.Prelude.Int.{pos}
use ether_trade.Decimal.{scale}
use ether_trade.Transfers.Types.{
  WithdrawalRequest, completed, WalletDeposit, credited, Payment, World, eth,
}
use ether_trade.Transfers.Units.{
  scale_evm_amount_to_platform, scale_platform_amount_to_evm, decimals_round_trip,
}
use ether_trade.Transfers.Repository.{
  Fetch, last_scanned_in, get_last_scanned_block, find_deposit_by_tx_hash, next_pending,
  create_withdrawal_request, find_withdrawal_by_idempotency, lock_next_pending_withdrawal,
  update_withdrawal_tx, complete_withdrawal_row, create_deposit, credit_deposit_row,
}
use ether_trade.Transfers.Withdrawals.Request.{
  RequestEnv, RequestWithdrawalRequest, validate, save, request_withdrawal, get_deposit_address, ok,
}
use ether_trade.Transfers.Withdrawals.Processor.{
  ChainEnv, broadcast, success, execute_on_chain_withdrawal, complete_withdrawal,
  process_next_withdrawal,
}
use ether_trade.Transfers.Withdrawals.Backing.{IsBacked}
use ether_trade.Transfers.Withdrawals.Worker.{Picks}
use ether_trade.Transfers.Withdrawals.Steps.{here, next, request, process, Reach-IsBacked}
use ether_trade.Transfers.Deposits.Processor.{
  DepositLog, DepositEnv, process_deposit_event, confirm, credit_user_account, resolve_token_config,
}
use ether_trade.Transfers.Deposits.Accounted.{IsAccounted}
use ether_trade.Transfers.Deposits.Once.{process_deposit_event-IsAccounted}
use ether_trade.Transfers.Deposits.Scanner.{ScannerEnv}
use ether_trade.Transfers.Deposits.Missed.{HasRow}
use ether_trade.Transfers.Deposits.Ranges.{Answers}
use ether_trade.Transfers.Deposits.Complete.{polls, polls-HasRow}
use ether_trade.Transfers.Uuids.RoundTrip.{canonical, uuid_round_trip}
use ether_trade.Transfers.Uuids.{without_dashes, uuid_to_bytes16, bytes16_to_uuid, without_prefix}
use ether_trade.Transfers.Sample.{
  Accounts, client, client_keeps_funds, client_credits_once, exact, exact-Truncates,
}

decimals_round_trip_example :
    (scale_evm_amount_to_platform exact (scale_platform_amount_to_evm exact 150000001 18) 18
      ≡ 150000001)
    × (scale_evm_amount_to_platform exact (scale_platform_amount_to_evm exact 150000001 6) 6 + 1
        ≡ 150000001)
decimals_round_trip_example = decimals_round_trip exact-Truncates 150000001

abbrev user : Text
user = text "01234567-89ab-cdef-0123-456789abcdef"

abbrev user_bytes16 : Text
user_bytes16 = text "0x0123456789abcdef0123456789abcdef"

uuid_round_trip_example :
    (bytes16_to_uuid user_bytes16 ≡ some (canonical user))
    × (uuid_to_bytes16 (canonical user) ≡ some user_bytes16)
unfolding uuid_to_bytes16 without_dashes
uuid_round_trip_example = uuid_round_trip user user_bytes16 refl

user_is_canonical : canonical user ≡ user
unfolding without_dashes
user_is_canonical = refl

abbrev no_accounts : Accounts
no_accounts = record { keys = []; locked = λ u c. 0; funds = λ u c. 0 }

abbrev world : World Accounts
world = record {
  db = record { deposits = []; withdrawals = []; scanner = []; outbox = [] };
  accounts = no_accounts;
  sent = [];
}

abbrev env : RequestEnv
env = record {
  is_valid_uuid = λ t. true;
  is_address = λ t. true;
  trim = λ t. t;
  upper = λ t. t;
  lower = λ t. t;
  parse = λ t. some (pos 15000000000000000);
  to_fixed = λ n. n / scale;
  new_id = 7;
  now = 1;
  database_fails = false;
}

abbrev wanted : RequestWithdrawalRequest
wanted = record {
  user_id = user;
  currency = eth;
  amount = text "1.5";
  destination_address = text "0xabc";
  idempotency_key = text "k1";
}

abbrev chain : ChainEnv
chain = record {
  numbers = exact;
  send = λ currency to amount. broadcast (text "0xfeed");
  receipt = λ hash. success;
  update_error = none;
  completes = true;
  fails = true;
  now = 2;
  event_ids = (1, 2, 3);
  show_id = λ id. id ∷ [];
}

abbrev fetch : Fetch
fetch = record { is_locked = λ x. false; oldest_first = λ rows. rows }

fetch-Picks : Picks client_keeps_funds fetch
fetch-Picks [] x h = cc
fetch-Picks (y ∷ ys) x h = inl (ground arith)

abbrev processed : World Accounts
processed =
    process_next_withdrawal client chain fetch (request_withdrawal client env wanted world).1

-- The request is completed, one payment is sent, and nothing is locked any more.
request_processed :
    (map (λ (x : WithdrawalRequest). x.status) processed.db.withdrawals ≡ completed ∷ [])
    × (map (λ (p : Payment). p.amount) processed.sent ≡ 1500000000000000000 ∷ [])
    × (processed.accounts.locked user eth ≡ 0)
    × ((request_withdrawal client env wanted world).1.accounts.locked user eth ≡ 150000000)
unfolding process_next_withdrawal execute_on_chain_withdrawal complete_withdrawal request_withdrawal
    save validate next_pending create_withdrawal_request find_withdrawal_by_idempotency
    lock_next_pending_withdrawal update_withdrawal_tx complete_withdrawal_row select_first
    select_all update_where text_eq scale_platform_amount_to_evm
request_processed = (refl, refl, refl, refl)

address_of_user :
    get_deposit_address env (text "0xva") user
    ≡ ok (record { vault_address = text "0xva"; user_id = user; user_id_bytes16 = user_bytes16 })
unfolding get_deposit_address uuid_to_bytes16 without_dashes
address_of_user = refl

world-IsBacked : IsBacked client_keeps_funds world
unfolding client_keeps_funds
world-IsBacked = record { distinct = tt; backed = λ u c. omega arith }

Reach-IsBacked_example : IsBacked client_keeps_funds processed
unfolding select_first client_keeps_funds
Reach-IsBacked_example = Reach-IsBacked client_keeps_funds world-IsBacked (
    next (process chain fetch) (next (request env wanted) here (refl, refl))
      (record { completes = refl; fails = refl }, fetch-Picks))

abbrev deposits : DepositEnv
deposits = record {
  numbers = exact;
  usdt_token_address = text "0xdac1";
  lower_case = λ t. t;
  insert_fails = λ hash. false;
  update_fails = λ hash. false;
  now = 3;
  new_id = λ hash. 9;
  event_ids = λ hash. (4, 5, 6);
  show_id = λ id. id ∷ [];
}

abbrev log : DepositLog
log = record {
  tx_hash = text "0xbeef";
  block_number = 12;
  user_bytes16 = text "0x0123456789ABCDEF0123456789abcdef";
  token_address = none;
  raw_amount = 2500000000000000000;
}

-- The log of a deposit of 2.5 ether, twice.
abbrev deposited_twice : World Accounts
deposited_twice =
    (process_deposit_event client deposits log
      (process_deposit_event client deposits log world).1).1

credited_once :
    (map (λ (d : WalletDeposit). d.status) deposited_twice.db.deposits ≡ credited ∷ [])
    × (map (λ (d : WalletDeposit). d.user_id) deposited_twice.db.deposits ≡ user ∷ [])
    × (deposited_twice.accounts.funds user eth ≡ 250000000)
unfolding process_deposit_event confirm credit_user_account resolve_token_config bytes16_to_uuid
    without_prefix find_deposit_by_tx_hash create_deposit credit_deposit_row select_first
    update_where text_eq scale_evm_amount_to_platform
credited_once = (refl, refl, refl)

world-IsAccounted : IsAccounted client_credits_once (λ u c. 0) world
unfolding client_credits_once
world-IsAccounted = record {
  ids = tt;
  hashes = tt;
  balance = λ u c. refl;
  foreign = λ hash free. refl;
  marked = tt;
}

process_deposit_event-IsAccounted_example :
    IsAccounted client_credits_once (λ u c. 0) (process_deposit_event client deposits log world).1
unfolding select_first
process_deposit_event-IsAccounted_example =
    process_deposit_event-IsAccounted client_credits_once (λ u c. 0) deposits log world refl
      world-IsAccounted

abbrev scanner : ScannerEnv
scanner = record {
  chain_id = 1;
  confirmations = 5;
  block_number = some 20;
  native_logs = λ from to. some (log ∷ []);
  token_logs = λ from to. some [];
  deposits = deposits;
}

scanner_answers : Answers scanner (log ∷ [])
scanner_answers = record {
  height = 20;
  answers_height = refl;
  answers_logs = λ from to. (log ∷ [], [], refl, refl, λ p mem low high. inl mem);
  inserts = λ hash. refl;
}

user_known : bytes16_to_uuid log.user_bytes16 ≡ some user
unfolding bytes16_to_uuid without_prefix
user_known = refl

polls-HasRow_example :
    HasRow log.tx_hash (polls client scanner 1 world)
    × (get_last_scanned_block 1 (polls client scanner 1 world).db ≡ some 15)
unfolding last_scanned_in scanner_answers
polls-HasRow_example =
    polls-HasRow client scanner (log ∷ []) scanner_answers 1 world log refl (omega arith) (inl refl)
      (omega arith) (λ unread. cc (unread, user_known))
