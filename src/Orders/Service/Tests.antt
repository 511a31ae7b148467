-- ===== src/Orders/Service/Tests.antt =====
-- The theorems of apps/orders/src/orders/orders.service.ts at one order, with an accounts service
-- that keeps its balances as functions.
use ether_trade.Prelude.{
  ℕ, ◌+◌, ◌-◌, ◌≤◌, ◌≡◌, refl, Bool, true, false, ◌||◌, none, some, [], ◌∷◌, ◌++◌, map, Text, text,
  text_eq, text_eq_sound, arith, Bool-cases, inl, inr, select_first,
}
use ether_trade.Prelude.Int.{pos}
use ether_trade.Decimal.{round_half_up}
use ether_trade.Orders.Types.{buy, limit, open_status, cancelled, Order}
use ether_trade.Orders.Repository.{find_by_id, find_by_id_and_user_id, cancel}
use ether_trade.Orders.Orderbook.{Book, Valkey}
use ether_trade.Orders.Service.Types.{
  CreateOrderRequest, CancelOrderRequest, BalanceRequest, AccountsClient, World, ok, error,
  order_already_cancelled, OrderItem,
}
use ether_trade.Orders.Service.Idempotency.{find_record}
use ether_trade.Orders.Service.Create.{CreateEnv, validate_create_order_request, create_order}
use ether_trade.Orders.Service.Cancel.{CancelEnv, cancel_order}
use ether_trade.Orders.Service.Replay.{create_order_replay}
use ether_trade.Orders.Service.Saga.{LocksBalances, concerns, share}
use ether_trade.Orders.Service.Cancellation.{cancel_order_once}

-- The locked balances, and the keys that have been used.
record Balances : Type 0 where
  locked : ℕ → Text → ℕ
  used : Text → Bool

abbrev key_used : Text → Balances → Text → Bool
key_used key x k = text_eq k key || x.used k

abbrev sample_client : AccountsClient Balances
sample_client = record {
  lock_balance = λ r x. (
    none,
    record { locked = λ u c. x.locked u c + share r u c; used = key_used r.idempotency_key x },
  );
  unlock_balance = λ r x. (
    none,
    record { locked = λ u c. x.locked u c - share r u c; used = key_used r.idempotency_key x },
  );
}

given_back :
    (r : BalanceRequest) (x : Balances) (user : ℕ) (currency : Text)
    → r.amount ≤ x.locked r.user_id r.currency
    → (x.locked user currency - share r user currency) + share r user currency
      ≡ x.locked user currency
given_back r x user currency enough = elim (Bool-cases (concerns r user currency)) [
  | inr other ↦ rw other (omega arith)
  | inl mine ↦
      let user_is : user ≡ r.user_id = ground (arith, mine) in
      let currency_is : currency ≡ r.currency =
        text_eq_sound currency r.currency (ground (arith, mine)) in
      let here : r.amount ≤ x.locked user currency = rw (user_is, currency_is) enough in
      rw mine (omega arith)
]

abbrev sample_laws : LocksBalances sample_client
sample_laws = record {
  locked = λ u c x. x.locked u c;
  is_used = λ k x. x.used k;
  lock_refused = λ r x m u c e. cc e;
  lock_done = λ r x u c unused granted. refl;
  lock_key = λ r x key apart. rw apart refl;
  unlock_done = λ r x u c unused enough. given_back r x u c enough;
}

abbrev sample_request : CreateOrderRequest
sample_request = record {
  user_id = 7;
  pair = text "BTC_USDT";
  side = buy;
  type = limit;
  price = text "5";
  amount = text "5";
  idempotency_key = text "k";
}

abbrev plain_valkey : Valkey
plain_valkey = record { ranked = map (λ m. m.0); to_number = λ p. p }

abbrev sample_create : Bool → CreateEnv
sample_create fails = record {
  parse = λ s. some (pos 500000000);
  hash = λ u pair side type price amount. pair ++ price ++ amount;
  to_fixed = round_half_up;
  insufficient = λ c n. text "insufficient";
  record_id = 1;
  order_id = 5;
  now = 1000;
  valkey = plain_valkey;
  matching = record { now = 1000; trade_id = λ n. n ∷ [] };
  eventing = record { row_id = λ n. n; event_id = λ n. n; correlation_id = 1; now = 1000 };
  trace = record { traceparent = none; tracestate = none };
  database_fails = fails;
}

abbrev empty_book : Book
empty_book = record { sorted_sets = λ k. []; details = λ k. none; sequences = λ k. 0 }

abbrev empty_world : World Balances
empty_world = record {
  orders = [];
  events = [];
  records = [];
  book = empty_book;
  accounts = record { locked = λ u c. 0; used = λ k. false };
}

abbrev placed_item : OrderItem
placed_item = record {
  order_id = 5;
  user_id = 7;
  pair = text "BTC_USDT";
  side = buy;
  type = limit;
  price = 500000000;
  amount = 500000000;
  filled_amount = 0;
  remaining_amount = 500000000;
  status = open_status;
  created_at = 1;
  updated_at = 1;
}

abbrev placed_world : World Balances
placed_world = (create_order (sample_create false) sample_client sample_request empty_world).1

placed_first :
    create_order (sample_create false) sample_client sample_request empty_world
    ≡ (ok placed_item, placed_world)
unfolding create_order text_eq select_first
placed_first = refl

-- Again with another price.
abbrev other_request : CreateOrderRequest
other_request = record sample_request { price = text "6" }

create_order_replay_example :
    create_order (sample_create true) sample_client other_request placed_world
    ≡ (ok placed_item, placed_world)
unfolding find_record select_first validate_create_order_request text_eq
create_order_replay_example =
    create_order_replay (sample_create false) (sample_create true) sample_client sample_request
      other_request placed_item empty_world placed_world refl placed_first refl refl refl
      (omega arith)

abbrev open_order : Order
open_order = record {
  id = 5;
  user_id = 7;
  pair = text "BTC_USDT";
  side = buy;
  type = limit;
  price = 500000000;
  amount = 500000000;
  filled_amount = 0;
  remaining_amount = 500000000;
  status = open_status;
  idempotency_key = text "k";
  created_at = 1000;
  updated_at = 1000;
}

abbrev open_world : World Balances
open_world = record empty_world { orders = open_order ∷ [] }

abbrev sample_cancel : CancelEnv
sample_cancel = record {
  to_fixed = round_half_up;
  id_text = λ n. n ∷ [];
  now = 2000;
  valkey = plain_valkey;
  eventing = record { row_id = λ n. n; event_id = λ n. n; correlation_id = 1; now = 2000 };
  trace = record { traceparent = none; tracestate = none };
  others = λ rows. rows;
}

abbrev cancel_5 : CancelOrderRequest
cancel_5 = record { order_id = 5; user_id = 7; idempotency_key = text "c" }

abbrev cancelled_item : OrderItem
cancelled_item = record placed_item { status = cancelled; updated_at = 2 }

abbrev cancelled_world : World Balances
cancelled_world = (cancel_order sample_cancel sample_client cancel_5 open_world).1

cancelled_first :
    cancel_order sample_cancel sample_client cancel_5 open_world
    ≡ (ok cancelled_item, cancelled_world)
unfolding cancel_order find_by_id_and_user_id cancel select_first
cancelled_first = refl

cancel_order_once_example :
    (cancelled_world.book.details 5 ≡ none)
    × (cancel_order sample_cancel sample_client cancel_5 cancelled_world
        ≡ (error order_already_cancelled, cancelled_world))
unfolding find_by_id select_first
cancel_order_once_example =
    cancel_order_once sample_cancel sample_cancel sample_client cancel_5 cancel_5 cancelled_item
      open_world cancelled_world (refl, tt) cancelled_first refl refl
