-- ===== src/Orders/Types.antt =====
-- The tables of the orders service (apps/orders/src/database/schema), its types
-- (apps/orders/src/orders/orders.types.ts) and the enums of libs/contracts/src/orders.types.ts.
use ether_trade.Prelude.{ℕ, Bool, true, false, List, Text}

pub data OrderSide : Type 0 where
  buy sell : OrderSide

pub data OrderType : Type 0 where
  limit market : OrderType

pub data OrderStatus : Type 0 where
  pending open_status filled partially_filled cancelled rejected : OrderStatus

-- `(side as OrderSide) === OrderSide.BUY`
abbrev pub is_buy : OrderSide → Bool
is_buy buy = true
is_buy sell = false

abbrev pub opposite : OrderSide → OrderSide
opposite buy = sell
opposite sell = buy

abbrev pub is_filled : OrderStatus → Bool
is_filled filled = true
is_filled _ = false

abbrev pub is_cancelled : OrderStatus → Bool
is_cancelled cancelled = true
is_cancelled _ = false

-- `inArray(orders.status, [OPEN, PARTIALLY_FILLED])`
abbrev pub is_active : OrderStatus → Bool
is_active open_status = true
is_active partially_filled = true
is_active _ = false

-- Prices and amounts count units of 10^-8, the scale of the numeric(28, 8) columns.
pub record Order : Type 0 where
  pub id : ℕ
  pub user_id : ℕ
  pub pair : Text
  pub side : OrderSide
  pub type : OrderType
  pub price : ℕ
  pub amount : ℕ
  pub filled_amount : ℕ
  pub remaining_amount : ℕ
  pub status : OrderStatus
  pub idempotency_key : Text
  pub created_at : ℕ
  pub updated_at : ℕ

pub record OrderbookEntry : Type 0 where
  pub order_id : ℕ
  pub user_id : ℕ
  pub pair : Text
  pub side : OrderSide
  pub type : OrderType
  pub price : ℕ
  pub amount : ℕ
  pub remaining_amount : ℕ
  pub created_at : ℕ

pub record MatchedTrade : Type 0 where
  pub trade_id : Text
  pub maker_order_id : ℕ
  pub taker_order_id : ℕ
  pub maker_user_id : ℕ
  pub taker_user_id : ℕ
  pub buy_order_id : ℕ
  pub sell_order_id : ℕ
  pub buyer_user_id : ℕ
  pub seller_user_id : ℕ
  pub symbol : Text
  pub price : ℕ
  pub quantity : ℕ
  pub buyer_limit_price : ℕ
  pub buyer_fee : ℕ
  pub seller_fee : ℕ

pub record MatchResult : Type 0 where
  pub taker_order : Order
  pub maker_orders_updated : List Order
  pub trades : List MatchedTrade
