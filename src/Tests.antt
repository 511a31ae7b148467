-- ===== src/Tests.antt =====
-- The solvency theorems at two trades and at a match
-- (apps/orders/src/orders and apps/accounts/src/consumers).
use ether_trade.Prelude.{
  ℕ, ◌+◌, ◌-◌, ◌≤◌, refl, List, [], ◌∷◌, map, text, text_eq, none, some, if◌then◌else◌, arith,
  sum_of,
}
use ether_trade.Decimal.{
  round_down, round_half_up, round_down-RoundsDown, round_half_up-RoundsHalfUp,
}
use ether_trade.Orders.Types.{buy, sell, limit, open_status, Order, OrderbookEntry}
use ether_trade.Orders.Orderbook.{Valkey, put_details}
use ether_trade.Orders.Matching.Loop.{Store, MatchEnv}
use ether_trade.Orders.Matching.Engine.{execute_match}
use ether_trade.Orders.Matching.Spec.{traded}
use ether_trade.Orders.Service.Types.{held_amount}
use ether_trade.Accounts.Settlement.Calculation.{Trade}
use ether_trade.Solvency.{taken_from_buyer, settled_trade, buy_order_solvent, execute_match_solvent}

-- A buyer with the limit 0.33333333 gets 0.5 at 0.3, then 0.2 at the limit.
abbrev trade_at : ℕ → ℕ → Trade
trade_at price quantity = record {
  trade_id = text "t";
  buyer_user_id = 7;
  seller_user_id = 8;
  symbol = text "BTC_USDT";
  price = price;
  quantity = quantity;
  buyer_limit_price = 33333333;
}

abbrev two_trades : List Trade
two_trades = trade_at 30000000 50000000 ∷ trade_at 33333333 20000000 ∷ []

buy_order_solvent_example :
    sum_of (taken_from_buyer round_down) two_trades
      + held_amount round_half_up buy 33333333 30000000
    ≤ held_amount round_half_up buy 33333333 100000000
buy_order_solvent_example =
    buy_order_solvent round_down round_half_up 33333333 100000000 30000000 two_trades
      round_down-RoundsDown round_half_up-RoundsHalfUp
      ((refl, omega arith), ((refl, omega arith), tt)) refl

abbrev buyer : Order
buyer = record {
  id = 5;
  user_id = 7;
  pair = text "BTC_USDT";
  side = buy;
  type = limit;
  price = 33333333;
  amount = 100000000;
  filled_amount = 0;
  remaining_amount = 100000000;
  status = open_status;
  idempotency_key = text "k";
  created_at = 1000;
  updated_at = 1000;
}

abbrev seller : OrderbookEntry
seller = record {
  order_id = 1;
  user_id = 8;
  pair = text "BTC_USDT";
  side = sell;
  type = limit;
  price = 30000000;
  amount = 50000000;
  remaining_amount = 50000000;
  created_at = 1;
}

abbrev one_seller : Store
one_seller = record {
  orders = buyer ∷ [];
  book = record {
    sorted_sets =
        λ key. if text_eq key (text "orderbook:sell:BTC_USDT") then (1, 30000000) ∷ [] else [];
    details = put_details 1 (some seller) (λ k. none);
    sequences = λ key. 0;
  };
}

abbrev by_score : Valkey
by_score = record { ranked = map (λ m. m.0); to_number = λ p. p }

abbrev at_2000 : MatchEnv
at_2000 = record { now = 2000; trade_id = λ n. n ∷ [] }

execute_match_solvent_example :
    sum_of
        (taken_from_buyer round_down)
        (map settled_trade (execute_match by_score at_2000 buyer one_seller).0.trades)
      + held_amount round_half_up buy 33333333
          (100000000 - traded (execute_match by_score at_2000 buyer one_seller).0.trades)
    ≤ held_amount round_half_up buy 33333333 100000000
execute_match_solvent_example =
    execute_match_solvent round_down round_half_up by_score at_2000 buyer one_seller
      round_down-RoundsDown round_half_up-RoundsHalfUp refl
