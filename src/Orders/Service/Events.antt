-- ===== src/Orders/Service/Events.antt =====
-- The outbox events that apps/orders/src/orders/orders.service.ts builds.
use ether_trade.Prelude.{ℕ, ◌+◌, none, List, [], ◌∷◌, Text, text, if◌then◌else◌}
use ether_trade.Orders.Types.{Order, MatchedTrade, is_filled}
use ether_trade.Orders.Orderbook.{Book, next_sequence}
use ether_trade.Orders.Outbox.Types.{
  OutboxStatus, OutboxAggregateType, order, trade, AggregateId, of_order, of_trade, Body, placed,
  cancelled, filled, trade_executed, OutboxEvent,
}

-- What the events take from outside: the ids that uuidv7 draws (one for the row, one for the
-- envelope), the correlation id, and the time.
pub record EventEnv : Type 0 where
  pub row_id : ℕ → ℕ
  pub event_id : ℕ → ℕ
  pub correlation_id : ℕ
  pub now : ℕ

-- The fields that all events of the service share. The number counts the events of one call.
unfoldable pub outbox_row :
    EventEnv
    → ℕ
    → OutboxAggregateType
    → AggregateId
    → Text
    → Text
    → Text
    → Text
    → Body
    → OutboxEvent
outbox_row env n aggregate_type aggregate_id partition_key row_type action event_type body =
    record {
      id = env.row_id n;
      aggregate_type = aggregate_type;
      aggregate_id = aggregate_id;
      partition_key = partition_key;
      event_type = row_type;
      payload = record {
        event_id = env.event_id n;
        action = action;
        event_type = event_type;
        aggregate_id = aggregate_id;
        partition_key = partition_key;
        timestamp = env.now;
        correlation_id = env.correlation_id;
        payload = body;
      };
      status = OutboxStatus.pending;
      retry_count = 0;
      last_error = none;
      traceparent = none;
      tracestate = none;
      created_at = env.now;
      updated_at = env.now;
    }

unfoldable pub placed_event : EventEnv → ℕ → Order → ℕ → ℕ → OutboxEvent
unfolding outbox_row
placed_event env n o sequence_id level_total_quantity =
    outbox_row env n order (of_order o.id) o.pair (text "order_placed") (text "ORDER_PLACED")
      (text "order.placed")
      (placed (record {
        order_id = o.id;
        user_id = o.user_id;
        symbol = o.pair;
        side = o.side;
        type = o.type;
        price = o.price;
        quantity = o.amount;
        level_total_quantity = level_total_quantity;
        sequence_id = sequence_id;
        timestamp = env.now;
      }))

unfoldable pub trade_event : EventEnv → ℕ → ℕ → MatchedTrade → OutboxEvent
unfolding outbox_row
trade_event env n sequence_id t =
    outbox_row env n trade (of_trade t.trade_id) t.symbol (text "trade_executed")
      (text "TRADE_EXECUTED") (text "matching.trade_executed")
      (trade_executed (record {
        trade_id = t.trade_id;
        buy_order_id = t.buy_order_id;
        sell_order_id = t.sell_order_id;
        buyer_user_id = t.buyer_user_id;
        seller_user_id = t.seller_user_id;
        symbol = t.symbol;
        price = t.price;
        quantity = t.quantity;
        buyer_limit_price = t.buyer_limit_price;
        buyer_fee = t.buyer_fee;
        seller_fee = t.seller_fee;
        sequence_id = sequence_id;
        timestamp = env.now;
      }))

unfoldable pub filled_event : EventEnv → ℕ → Order → OutboxEvent
unfolding outbox_row
filled_event env n o =
    outbox_row env n order (of_order o.id) o.pair (text "order_filled") (text "ORDER_FILLED")
      (text "order.filled")
      (filled (record {
        order_id = o.id;
        user_id = o.user_id;
        symbol = o.pair;
        filled_price = o.price;
        filled_quantity = o.filled_amount;
        remaining_quantity = o.remaining_amount;
        fee = 0;
        timestamp = env.now;
      }))

unfoldable pub cancelled_event : EventEnv → Order → ℕ → ℕ → OutboxEvent
unfolding outbox_row
cancelled_event env o sequence_id level_total_quantity =
    outbox_row env 0 order (of_order o.id) o.pair (text "order_cancelled") (text "ORDER_CANCELLED")
      (text "order.cancelled")
      (cancelled (record {
        order_id = o.id;
        user_id = o.user_id;
        symbol = o.pair;
        price = o.price;
        remaining_quantity = o.remaining_amount;
        level_total_quantity = level_total_quantity;
        side = o.side;
        sequence_id = sequence_id;
        reason = text "User cancelled";
        timestamp = env.now;
      }))

-- One event per trade, each with the next sequence number of its symbol.
unfoldable pub trade_events : EventEnv → ℕ → List MatchedTrade → Book → List OutboxEvent × Book
unfolding next_sequence trade_event
trade_events env n [] b = ([], b)
trade_events env n (t ∷ ts) b =
    let (sequence_id, b1) = next_sequence t.symbol b in
    let (rest, b2) = trade_events env (n + 1) ts b1 in (trade_event env n sequence_id t ∷ rest, b2)

-- One event per order that has been filled.
unfoldable pub filled_events : EventEnv → ℕ → List Order → List OutboxEvent
unfolding filled_event
filled_events env n [] = []
filled_events env n (o ∷ os) =
    let rest = filled_events env (n + 1) os in
    let skipped = filled_events env n os in
    if is_filled o.status then filled_event env n o ∷ rest else skipped
