-- ===== src/Orders/Service/Types.antt =====
-- The requests, errors and state of apps/orders/src/orders/orders.service.ts, and the client of
-- the accounts service that it calls.
use ether_trade.Prelude.{ℕ, ◌*◌, ◌/◌, Option, List, [], ◌∷◌, Text, split_from, if◌then◌else◌}
use ether_trade.Orders.Types.{OrderSide, OrderType, OrderStatus, is_buy, Order}
use ether_trade.Orders.Orderbook.{Book}
use ether_trade.Orders.Outbox.Types.{OutboxEvent}

-- Prices and amounts are those of the numeric(28, 8) columns; what BigNumber makes of the request's
-- strings is a parameter (`parse`, `none` if the number is not finite).
pub record CreateOrderRequest : Type 0 where
  pub user_id : ℕ
  pub pair : Text
  pub side : OrderSide
  pub type : OrderType
  pub price : Text
  pub amount : Text
  pub idempotency_key : Text

pub record CancelOrderRequest : Type 0 where
  pub order_id : ℕ
  pub user_id : ℕ
  pub idempotency_key : Text

-- The RpcExceptions of the service by their message, and the errors of what it calls.
pub data ServiceError : Type 0 where
  unsupported_pair invalid_price invalid_amount : ServiceError
  idempotency_in_progress idempotency_payload_mismatch : ServiceError
  payment_required : Text → ServiceError
  order_not_found order_already_cancelled order_already_filled : ServiceError
  unique_violation database_failed : ServiceError

pub record OrderItem : Type 0 where
  pub order_id : ℕ
  pub user_id : ℕ
  pub pair : Text
  pub side : OrderSide
  pub type : OrderType
  pub price : ℕ
  pub amount : ℕ
  pub filled_amount : ℕ
  pub remaining_amount : ℕ
  pub status : OrderStatus
  pub created_at : ℕ
  pub updated_at : ℕ

-- `mapOrderToItem`
abbrev pub map_order_to_item : Order → OrderItem
map_order_to_item o = record {
  order_id = o.id;
  user_id = o.user_id;
  pair = o.pair;
  side = o.side;
  type = o.type;
  price = o.price;
  amount = o.amount;
  filled_amount = o.filled_amount;
  remaining_amount = o.remaining_amount;
  status = o.status;
  created_at = o.created_at / 1000;
  updated_at = o.updated_at / 1000;
}

pub data IdempotencyStatus : Type 0 where
  in_progress completed failed : IdempotencyStatus

pub record IdempotencyRecord : Type 0 where
  pub id : ℕ
  pub user_id : ℕ
  pub operation : Text
  pub key : Text
  pub request_hash : Text
  pub status : IdempotencyStatus
  pub response_payload : Option OrderItem
  pub expires_at : ℕ

-- `lockBalance` and `unlockBalance`
pub record BalanceRequest : Type 0 where
  pub user_id : ℕ
  pub amount : ℕ
  pub currency : Text
  pub idempotency_key : Text
  pub reference_id : Text

-- The accounts service as its client sees it: an error message or nothing, and its next state.
pub record AccountsClient (X : Type 0) : Type 0 where
  pub lock_balance : BalanceRequest → X → Option Text × X
  pub unlock_balance : BalanceRequest → X → Option Text × X

-- The service's tables, the book in Valkey, and the accounts service's state.
pub record World (X : Type 0) : Type 0 where
  pub orders : List Order
  pub events : List OutboxEvent
  pub records : List IdempotencyRecord
  pub book : Book
  pub accounts : X

pub data Result (A : Type 0) : Type 0 where
  ok : A → Result A
  error : ServiceError → Result A

-- `const [baseCurrency, quoteCurrency] = pair.split('_')`; a missing part is `undefined`, which no
-- supported pair has.
abbrev pub first : List Text → Text
first [] = []
first (s ∷ _) = s

abbrev pub second : List Text → Text
second (_ ∷ s ∷ _) = s
second _ = []

abbrev pub base_currency : Text → Text
base_currency pair = first (split_from [] pair)

abbrev pub quote_currency : Text → Text
quote_currency pair = second (split_from [] pair)

abbrev pub held_currency : OrderSide → Text → Text
held_currency side pair = if is_buy side then quote_currency pair else base_currency pair

-- `toFixed(8)` of a price times an amount, or of the amount alone.
abbrev pub held_amount : (ℕ → ℕ) → OrderSide → ℕ → ℕ → ℕ
held_amount to_fixed side price amount = if is_buy side then to_fixed (price * amount) else amount
