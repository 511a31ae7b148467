-- ===== src/Orders/Outbox/Tests.antt =====
-- The theorems of the outbox at two events (apps/orders/src/outbox).
use ether_trade.Prelude.{
  ℕ, ◌≤◌, ◌≡◌, true, false, none, some, List, [], ◌∷◌, text, arith, select_all,
}
use ether_trade.Transaction.{value}
use ether_trade.Orders.Types.{buy, limit}
use ether_trade.Orders.Outbox.Types.{
  OutboxStatus, OutboxAggregateType, of_order, placed, OutboxEvent,
}
use ether_trade.Orders.Outbox.Repository.{clean_published_events}
use ether_trade.Orders.Outbox.Relay.{
  RelayEnv, process_batch, accepted, next_delay, min_delay, max_delay,
}
use ether_trade.Orders.Outbox.Delivery.{
  batch_of, relayed_batch, process_batch-relayed, IsDelivered, process_batch-IsDelivered,
  next_delay_bounds,
}
use ether_trade.Orders.Outbox.Retention.{clean_published_events_lem}

abbrev sample_event : ℕ → OutboxStatus → ℕ → OutboxEvent
sample_event id status created = record {
  id = id;
  aggregate_type = OutboxAggregateType.order;
  aggregate_id = of_order 5;
  partition_key = text "BTC_USDT";
  event_type = text "order_placed";
  payload = record {
    event_id = id;
    action = text "ORDER_PLACED";
    event_type = text "order.placed";
    aggregate_id = of_order 5;
    partition_key = text "BTC_USDT";
    timestamp = created;
    correlation_id = 1;
    payload = placed (record {
      order_id = 5;
      user_id = 7;
      symbol = text "BTC_USDT";
      side = buy;
      type = limit;
      price = 10;
      quantity = 3;
      level_total_quantity = 0;
      sequence_id = 1;
      timestamp = created;
    });
  };
  status = status;
  retry_count = 0;
  last_error = none;
  traceparent = none;
  tracestate = none;
  created_at = created;
  updated_at = created;
}

abbrev sample_relay : RelayEnv
sample_relay = record {
  app_env = text "dev";
  clean = λ s. s;
  upper = λ s. s;
  now = 3000;
  fetch = record { is_locked = λ e. false; oldest_first = λ es. es };
  sends = λ rs. true;
  marks = true;
  message = λ f. text "error";
}

abbrev sample_events : List OutboxEvent
sample_events = sample_event 1 OutboxStatus.pending 10 ∷ sample_event 2 OutboxStatus.pending 20 ∷ []

sample-IsDelivered : IsDelivered [] sample_events
sample-IsDelivered = (λ e. cc e, (λ e. cc e, tt))

process_batch-relayed_example : process_batch sample_relay sample_events [] ≡ (
    let (r, rows) =
      relayed_batch sample_relay sample_events (batch_of sample_relay sample_events) in
    (r, rows, accepted sample_relay (batch_of sample_relay sample_events)))
process_batch-relayed_example = process_batch-relayed sample_relay sample_events []

process_batch-IsDelivered_example :
    IsDelivered
      (process_batch sample_relay sample_events []).2
      (process_batch sample_relay sample_events []).1
process_batch-IsDelivered_example =
    process_batch-IsDelivered sample_relay sample_events [] sample-IsDelivered

clean_published_events_lem_example :
    clean_published_events 200000000
      (sample_event 1 OutboxStatus.published 10 ∷ sample_event 2 OutboxStatus.pending 20 ∷ [])
    ≡ some (sample_event 2 OutboxStatus.pending 20 ∷ [], 1)
unfolding select_all
clean_published_events_lem_example =
    clean_published_events_lem 200000000
      (sample_event 1 OutboxStatus.published 10 ∷ sample_event 2 OutboxStatus.pending 20 ∷ [])

next_delay_bounds_example :
    (min_delay ≤ next_delay (value 0) 54675) × (next_delay (value 0) 54675 ≤ max_delay)
next_delay_bounds_example = next_delay_bounds (value 0) 54675 (omega arith) (omega arith)
