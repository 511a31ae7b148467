-- ===== src/CopyTrading/Replication/Messages.antt =====
-- handleMessage and replicateMasterTrade of
-- apps/copy-trading/src/consumers/master-trade-replication.consumer.ts.
use ether_trade.Prelude.{
  ℕ, Bool, true, false, Option, none, some, List, [], ◌∷◌, ◌++◌, Text, text, if◌then◌else◌,
}
use ether_trade.Common.Batches.{execute_in_batches}
use ether_trade.Accounts.Settlement.Calculation.{Trade}
use ether_trade.Accounts.Settlement.Messages.{Envelope, Message, or_else, is_other_action}
use ether_trade.Orders.Types.{OrderSide, buy, sell}
use ether_trade.Orders.Service.Types.{base_currency}
use ether_trade.CopyTrading.Types.{CopySubscription}
use ether_trade.CopyTrading.Repository.{find_active_by_master, is_processed, mark_processed}
use ether_trade.CopyTrading.Service.{usdt}
use ether_trade.CopyTrading.Caches.{get_active_master_id, get_master_or_follower_balance}
use ether_trade.CopyTrading.Replication.Types.{
  ReplicationSideTask, OrdersClient, World, ReplicationEnv, with_db,
}
use ether_trade.CopyTrading.Replication.Follower.{replicate_for_subscriber}

pub data Replicated : Type 0 where
  ignored dropped duplicate replicated : Replicated
  -- thrown, so that Kafka delivers the message again
  invalid_event_schema heartbeat_failed : Replicated

abbrev pub batch_size : ℕ
batch_size = 50

abbrev pub balance_currency : OrderSide → Text → Text
balance_currency buy pair = usdt
balance_currency sell pair = base_currency pair

abbrev task_of : ℕ → ℕ → OrderSide → Trade → ReplicationSideTask
task_of master user side trade = record {
  master_id = master;
  master_user_id = user;
  side = side;
  master_price = trade.price;
  master_quantity = trade.quantity;
  pair = trade.symbol;
  trade_id = trade.trade_id;
}

-- The tasks of the buyer and the seller, of those that are active masters.
abbrev pub side_task : Option ℕ → ℕ → OrderSide → Trade → List ReplicationSideTask
side_task none user side trade = []
side_task (some master) user side trade = task_of master user side trade ∷ []

unfoldable pub side_tasks : List (ℕ × ℕ) → Trade → List ReplicationSideTask
unfolding get_active_master_id
side_tasks masters trade =
    side_task (get_active_master_id trade.buyer_user_id masters) trade.buyer_user_id buy trade
    ++ side_task (get_active_master_id trade.seller_user_id masters) trade.seller_user_id sell trade

abbrev consumer_group : Text
consumer_group = text "copy-trading-replication-group"

-- Whether it went through, that is, every heartbeat succeeded.
abbrev pub went_through : {X : Type 0} → Option (List (Unit {0})) × World X → Bool × World X
went_through (none, w) = (false, w)
went_through (some _, w) = (true, w)

module _ {X : Type 0} (client : OrdersClient X) (env : ReplicationEnv) where
  abbrev pub follower_task :
      ReplicationSideTask → ℕ → CopySubscription → World X → Unit {0} × World X
  follower_task task balance sub w = (tt, replicate_for_subscriber client env task balance sub w)

  abbrev pub replicate_to : ReplicationSideTask → List CopySubscription → World X → Bool × World X
  replicate_to task [] w = (true, w)
  replicate_to task (sub ∷ subs) w =
      let (balance, cache) =
        get_master_or_follower_balance env.service task.master_user_id
          (balance_currency task.side task.pair) w.service.cache in
      went_through (
        execute_in_batches batch_size (follower_task task balance) (env.heartbeat task.side)
          (sub ∷ subs) (record w { service = record w.service { cache = cache } }))

  -- `replicateMasterTrade`
  unfoldable pub replicate_master_trade : ReplicationSideTask → World X → Bool × World X
  unfolding find_active_by_master execute_in_batches replicate_for_subscriber
  replicate_master_trade task w =
      replicate_to task (find_active_by_master env.sorted task.master_id w.service.db) w

  -- The loop over the tasks; a failure ends it.
  unfoldable pub replicate_tasks : List ReplicationSideTask → World X → Bool × World X
  unfolding replicate_master_trade
  replicate_tasks [] w = (true, w)
  replicate_tasks (task ∷ tasks) w =
      let rest = replicate_tasks tasks (replicate_master_trade task w).1 in
      if (replicate_master_trade task w).0 then rest else (false, (replicate_master_trade task w).1)

  abbrev pub marked : ℕ → Text → Bool × World X → Replicated × World X
  marked event_id event_type (false, w) = (heartbeat_failed, w)
  marked event_id event_type (true, w) = (
    replicated,
    with_db w (
        mark_processed
          (record {
            event_id = event_id;
            event_type = event_type;
            consumer_group = consumer_group;
            processed_at = env.service.now;
          })
          w.service.db),
  )

  abbrev pub replicate_new : ℕ → Text → List ReplicationSideTask → World X → Replicated × World X
  replicate_new event_id event_type [] w = (dropped, w)
  replicate_new event_id event_type (task ∷ tasks) w =
      if is_processed event_id w.service.db
      then (duplicate, w)
      else marked event_id event_type (replicate_tasks (task ∷ tasks) w)

  abbrev pub handle_envelope :
      Option Text → Envelope → Option ℕ → Option Trade → World X → Replicated × World X
  handle_envelope header e none _ w = (invalid_event_schema, w)
  handle_envelope header e (some id) none w = (invalid_event_schema, w)
  handle_envelope header e (some id) (some trade) w =
      if is_other_action (or_else e.action header)
      then (ignored, w)
      else replicate_new id e.event_type (side_tasks w.service.active_masters trade) w

  abbrev pub handle_value : Option Text → Option Envelope → World X → Replicated × World X
  handle_value header none w = (invalid_event_schema, w)
  handle_value header (some e) w = handle_envelope header e e.event_id e.payload w

  -- `handleMessage`. An event that no active master takes part in is dropped before the table of
  -- processed events is read.
  unfoldable pub handle_message : Message → World X → Replicated × World X
  unfolding side_tasks is_processed mark_processed replicate_tasks
  handle_message message w = handle_value message.action_header message.value w
