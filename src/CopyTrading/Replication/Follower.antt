-- ===== src/CopyTrading/Replication/Follower.antt =====
-- replicateForSubscriber of apps/copy-trading/src/consumers/master-trade-replication.consumer.ts.
-- Telemetry and logs are left out.
use ether_trade.Prelude.{ℕ, List, Option, none, some, [], ◌∷◌, Text, text, if◌then◌else◌}
use ether_trade.Orders.Types.{OrderSide, buy, sell}
use ether_trade.CopyTrading.Types.{
  CopySubscription, CopyOrderStatus, completed, failed, skipped, CopyOrderHistory, Database,
  HeldLock, below_min_lot,
}
use ether_trade.CopyTrading.Repository.{get_subscription_position, create_history}
use ether_trade.CopyTrading.Calculator.{
  BigNumbers, calculate_buy_quantity, calculate_sell_quantity, calculate_sub_position,
  calculate_protected_price, is_dust,
}
use ether_trade.CopyTrading.Replication.Lock.{acquire_lock, release_lock}
use ether_trade.CopyTrading.Replication.Types.{
  ReplicationSideTask, CopyOrderRequest, Placed, placed, refused, OrdersClient, World,
  ReplicationEnv, with_db,
}

-- The quantity of the follower's order.
unfoldable pub target_quantity :
    BigNumbers → CopySubscription → ReplicationSideTask → OrderSide → ℕ → Database → ℕ
unfolding get_subscription_position
target_quantity b sub task buy balance d =
    calculate_buy_quantity b task.master_quantity balance sub.allocated_balance
target_quantity b sub task sell balance d =
    let (bought, sold) = get_subscription_position sub.id task.pair d in
    calculate_sell_quantity b task.master_quantity balance (calculate_sub_position b bought sold)

abbrev pub history_row :
    ReplicationEnv
    → CopySubscription
    → ReplicationSideTask
    → Option ℕ
    → ℕ
    → ℕ
    → CopyOrderStatus
    → Option Text
    → CopyOrderHistory
history_row env sub task order quantity price status reason = record {
  subscription_id = sub.id;
  master_trade_id = task.trade_id;
  follower_order_id = order;
  pair = task.pair;
  master_side = task.side;
  replicated_quantity = quantity;
  replicated_price = price;
  status = status;
  failure_reason = reason;
  created_at = env.service.now;
}

-- `(orderErr as Error).message || 'ORDER_SUBMISSION_FAILED'`
abbrev pub failure_reason : Text → Text
failure_reason [] = text "ORDER_SUBMISSION_FAILED"
failure_reason (c ∷ t) = c ∷ t

-- The row for what the orders service answered.
abbrev pub placed_row :
    ReplicationEnv → CopySubscription → ReplicationSideTask → ℕ → ℕ → Placed → CopyOrderHistory
placed_row env sub task quantity price (placed order) =
    history_row env sub task order quantity price completed none
placed_row env sub task quantity price (refused message) =
    history_row env sub task none quantity price failed (some (failure_reason message))

abbrev pub order_request : ReplicationSideTask → CopySubscription → ℕ → ℕ → CopyOrderRequest
order_request task sub quantity price = record {
  user_id = sub.follower_user_id;
  pair = task.pair;
  side = task.side;
  price = price;
  amount = quantity;
  idempotency_key = (task.trade_id, sub.follower_user_id);
}

module _ {X : Type 0} where
  -- The order is placed and its outcome recorded.
  unfoldable pub place_order :
      OrdersClient X
      → ReplicationEnv
      → ReplicationSideTask
      → CopySubscription
      → ℕ
      → World X
      → World X
  unfolding calculate_protected_price create_history
  place_order client env task sub quantity w =
      let price =
        calculate_protected_price env.numbers task.master_price sub.max_slippage_percent
          task.side in
      let (answer, orders) = client.create_order (order_request task sub quantity price) w.orders in
      with_db (record w { orders = orders })
        (create_history (placed_row env sub task quantity price answer) w.service.db)

  -- What happens under the lock: dust is recorded as skipped.
  unfoldable pub copy_trade :
      OrdersClient X
      → ReplicationEnv
      → ReplicationSideTask
      → ℕ
      → CopySubscription
      → World X
      → World X
  unfolding target_quantity is_dust create_history place_order
  copy_trade client env task balance sub w =
      let quantity = target_quantity env.numbers sub task task.side balance w.service.db in
      if is_dust env.lots task.pair quantity
      then with_db w (
          create_history
            (history_row env sub task none quantity task.master_price skipped (some below_min_lot))
            w.service.db)
      else place_order client env task sub quantity w

  abbrev pub locked_copy :
      OrdersClient X
      → ReplicationEnv
      → ReplicationSideTask
      → ℕ
      → CopySubscription
      → World X
      → Option ℕ × List HeldLock
      → World X
  locked_copy client env task balance sub w (none, locks) = w
  locked_copy client env task balance sub w (some token, locks) =
      let done = copy_trade client env task balance sub (record w { locks = locks }) in
      record done {
        locks =
            (release_lock (env.release_answers sub.follower_user_id) sub.follower_user_id token
              (env.locks_meanwhile done.locks)).1;
      }

  -- `replicateForSubscriber`: nothing is done without the lock.
  unfoldable pub replicate_for_subscriber :
      OrdersClient X
      → ReplicationEnv
      → ReplicationSideTask
      → ℕ
      → CopySubscription
      → World X
      → World X
  unfolding acquire_lock copy_trade release_lock
  replicate_for_subscriber client env task balance sub w =
      locked_copy client env task balance sub w (
        acquire_lock (env.lock_answers sub.follower_user_id) sub.follower_user_id
          (env.token sub.follower_user_id) w.locks)
