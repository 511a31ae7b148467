-- ===== src/Orders/Service/Create/Checks.antt =====
-- What `createOrder` of apps/orders/src/orders/orders.service.ts checks before it locks funds, and what
-- it makes of the request.
use ether_trade.Prelude.{
  ℕ, suc, ◌+◌, ◌*◌, Bool, true, false, ◌||◌, Option, none, some, ◌++◌, Text, text, text_eq,
  if◌then◌else◌,
}
use ether_trade.Prelude.Int.{ℤ, pos}
use ether_trade.Orders.Types.{OrderSide, OrderType, open_status, Order}
use ether_trade.Orders.Orderbook.{Valkey}
use ether_trade.Orders.Matching.Loop.{MatchEnv}
use ether_trade.Orders.Outbox.Repository.{TraceContext}
use ether_trade.Orders.Service.Types.{
  CreateOrderRequest, ServiceError, unsupported_pair, invalid_price, invalid_amount,
  idempotency_in_progress, idempotency_payload_mismatch, OrderItem, in_progress, completed, failed,
  IdempotencyRecord, BalanceRequest, Result, ok, error, held_currency, held_amount,
}
use ether_trade.Orders.Service.Events.{EventEnv}

-- What a call takes from outside: what BigNumber makes of a string with at most eight decimals
-- (`none` if it is not finite), the hash of a request, `toFixed(8)`, the ids that are drawn, the
-- matching's and the events' own, and whether the database refuses the transaction's last part.
pub record CreateEnv : Type 0 where
  pub parse : Text → Option ℤ
  pub hash : ℕ → Text → OrderSide → OrderType → Text → Text → Text
  pub to_fixed : ℕ → ℕ
  pub insufficient : Text → ℕ → Text
  pub record_id : ℕ
  pub order_id : ℕ
  pub now : ℕ
  pub valkey : Valkey
  pub matching : MatchEnv
  pub eventing : EventEnv
  pub trace : TraceContext
  pub database_fails : Bool

abbrev pub is_supported : Text → Bool
is_supported pair = text_eq (text "BTC_USDT") pair || text_eq (text "ETH_USDT") pair

-- `isFinite()` and not `isLessThanOrEqualTo(0)`
abbrev pub is_positive : Option ℤ → Bool
is_positive (some (pos (suc n))) = true
is_positive _ = false

abbrev pub units : Option ℤ → ℕ
units (some (pos n)) = n
units _ = 0

-- `validateCreateOrderRequest`, with the first error or nothing.
unfoldable pub validate_create_order_request :
    (Text → Option ℤ) → CreateOrderRequest → Option ServiceError
validate_create_order_request parse r =
    if is_supported r.pair
    then (if is_positive (parse r.price)
        then (if is_positive (parse r.amount) then none else some invalid_amount)
        else some invalid_price)
    else some unsupported_pair

abbrev pub operation : Text
operation = text "CREATE_ORDER"

abbrev pub request_hash : CreateEnv → CreateOrderRequest → Text
request_hash env r = env.hash r.user_id r.pair r.side r.type r.price r.amount

abbrev pub mismatch : Text → Text → Option (Result OrderItem)
mismatch hash stored =
    if text_eq stored hash then none else some (error idempotency_payload_mismatch)

-- What the idempotency check decides: go on, or give a stored response or an error.
unfoldable pub replayed : Text → Option IdempotencyRecord → Option (Result OrderItem)
replayed hash none = none
replayed hash (some r) = elim r.status [
  | completed ↦ elim r.response_payload [
    | some item ↦ some (ok item)
    | none ↦ mismatch hash r.request_hash
  ]
  | in_progress ↦ some (error idempotency_in_progress)
  | failed ↦ mismatch hash r.request_hash
]

abbrev pub new_record : CreateEnv → CreateOrderRequest → IdempotencyRecord
new_record env r = record {
  id = env.record_id;
  user_id = r.user_id;
  operation = operation;
  key = r.idempotency_key;
  request_hash = request_hash env r;
  status = in_progress;
  response_payload = none;
  expires_at = env.now + 24 * 60 * 60 * 1000;
}

abbrev pub price_of : CreateEnv → CreateOrderRequest → ℕ
price_of env r = units (env.parse r.price)

abbrev pub amount_of : CreateEnv → CreateOrderRequest → ℕ
amount_of env r = units (env.parse r.amount)

-- The lock and, with another key, the unlock that compensates for it.
unfoldable pub hold : CreateEnv → Text → CreateOrderRequest → BalanceRequest
hold env prefix r = record {
  user_id = r.user_id;
  amount = held_amount env.to_fixed r.side (price_of env r) (amount_of env r);
  currency = held_currency r.side r.pair;
  idempotency_key = prefix ++ r.idempotency_key;
  reference_id = r.idempotency_key;
}

abbrev pub initial_order : CreateEnv → CreateOrderRequest → Order
initial_order env r = record {
  id = env.order_id;
  user_id = r.user_id;
  pair = r.pair;
  side = r.side;
  type = r.type;
  price = price_of env r;
  amount = amount_of env r;
  filled_amount = 0;
  remaining_amount = amount_of env r;
  status = open_status;
  idempotency_key = r.idempotency_key;
  created_at = env.now;
  updated_at = env.now;
}
