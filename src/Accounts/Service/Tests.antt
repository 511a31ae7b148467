-- ===== src/Accounts/Service/Tests.antt =====
-- The theorems of apps/accounts/src/balances/balances.service.ts at one deposit.
use ether_trade.Prelude.{◌≡◌, some, [], text}
use ether_trade.Accounts.Types.{Database, Env}
use ether_trade.Accounts.Repository.Spec.{deposits}
use ether_trade.Accounts.Service.Amounts.{read_amount, to_fixed_8}
use ether_trade.Accounts.Service.RoundTrip.{read_amount-to_fixed_8}
use ether_trade.Accounts.Service.Requests.{Names, Request, serve}
use ether_trade.Accounts.Service.Guard.{Served, serve-Served}

abbrev sample_names : Names
sample_names = record { user_of = λ id. some 7; upper = λ s. s }

abbrev sample_request : Request
sample_request = record {
  user_id = text "u7";
  currency = text " USDT ";
  amount = text "100.5";
  idempotency_key = text "k1";
  reference_id = text "";
}

abbrev no_rows : Database
no_rows = record { accounts = []; ledger = []; processed_events = [] }

abbrev alone : Env
alone = record { new_id = 2; now = 5; while_locking = λ d. d; before_insert = λ d. d }

serve-Served_example :
    Served deposits alone no_rows (serve deposits sample_names alone sample_request no_rows)
serve-Served_example = serve-Served deposits sample_names alone sample_request no_rows

read_amount-to_fixed_8_example : read_amount (to_fixed_8 10050000000) ≡ some 10050000000
read_amount-to_fixed_8_example = read_amount-to_fixed_8 10050000000
