-- ===== src/Orders/Outbox/Types.antt =====
-- The events of libs/contracts/src/events and the table of
-- apps/orders/src/database/schema/outbox-events.schema.ts.
use ether_trade.Prelude.{ℕ, Bool, true, false, Option, Text}
use ether_trade.Orders.Types.{OrderSide, OrderType}

pub data OutboxStatus : Type 0 where
  pending published failed : OutboxStatus

abbrev pub is_pending : OutboxStatus → Bool
is_pending pending = true
is_pending _ = false

abbrev pub is_published : OutboxStatus → Bool
is_published published = true
is_published _ = false

-- `OutboxAggregateType`, the two that the orders service writes.
pub data OutboxAggregateType : Type 0 where
  order trade : OutboxAggregateType

-- The id of an order or of a trade.
pub data AggregateId : Type 0 where
  of_order : ℕ → AggregateId
  of_trade : Text → AggregateId

pub record OrderPlacedEvent : Type 0 where
  pub order_id : ℕ
  pub user_id : ℕ
  pub symbol : Text
  pub side : OrderSide
  pub type : OrderType
  pub price : ℕ
  pub quantity : ℕ
  pub level_total_quantity : ℕ
  pub sequence_id : ℕ
  pub timestamp : ℕ

pub record OrderCancelledEvent : Type 0 where
  pub order_id : ℕ
  pub user_id : ℕ
  pub symbol : Text
  pub price : ℕ
  pub remaining_quantity : ℕ
  pub level_total_quantity : ℕ
  pub side : OrderSide
  pub sequence_id : ℕ
  pub reason : Text
  pub timestamp : ℕ

pub record OrderFilledEvent : Type 0 where
  pub order_id : ℕ
  pub user_id : ℕ
  pub symbol : Text
  pub filled_price : ℕ
  pub filled_quantity : ℕ
  pub remaining_quantity : ℕ
  pub fee : ℕ
  pub timestamp : ℕ

pub record TradeExecutedEvent : Type 0 where
  pub trade_id : Text
  pub buy_order_id : ℕ
  pub sell_order_id : ℕ
  pub buyer_user_id : ℕ
  pub seller_user_id : ℕ
  pub symbol : Text
  pub price : ℕ
  pub quantity : ℕ
  pub buyer_limit_price : ℕ
  pub buyer_fee : ℕ
  pub seller_fee : ℕ
  pub sequence_id : ℕ
  pub timestamp : ℕ

pub data Body : Type 0 where
  placed : OrderPlacedEvent → Body
  cancelled : OrderCancelledEvent → Body
  filled : OrderFilledEvent → Body
  trade_executed : TradeExecutedEvent → Body

-- `DomainEventEnvelope`
pub record DomainEvent : Type 0 where
  pub event_id : ℕ
  pub action : Text
  pub event_type : Text
  pub aggregate_id : AggregateId
  pub partition_key : Text
  pub timestamp : ℕ
  pub correlation_id : ℕ
  pub payload : Body

pub record OutboxEvent : Type 0 where
  pub id : ℕ
  pub aggregate_type : OutboxAggregateType
  pub aggregate_id : AggregateId
  pub partition_key : Text
  pub event_type : Text
  pub payload : DomainEvent
  pub status : OutboxStatus
  pub retry_count : ℕ
  pub last_error : Option Text
  pub traceparent : Option Text
  pub tracestate : Option Text
  pub created_at : ℕ
  pub updated_at : ℕ
