-- ===== src/CopyTrading/Tests.antt =====
-- The theorems of apps/copy-trading/src at one master, one follower and one trade.
use ether_trade.Prelude.{
  ℕ, ◌+◌, ◌*◌, ◌≡◌, ◌≢◌, refl, true, none, some, [], ◌∷◌, text, text_eq, split_from, arith,
  select_first, select_all, update_where, map,
}
use ether_trade.Orders.Types.{buy}
use ether_trade.Accounts.Settlement.Calculation.{Trade}
use ether_trade.Accounts.Settlement.Messages.{Envelope, Message}
use ether_trade.CopyTrading.Types.{
  MasterTrader, CopySubscription, active, CopyOrderHistory, completed, Database,
}
use ether_trade.CopyTrading.Repository.{
  total_quantity, is_processed, find_by_subscription_and_trade,
}
use ether_trade.CopyTrading.Service.{CreateSubscriptionRequest, create_subscription}
use ether_trade.CopyTrading.Caches.{
  State, Env, get_master_or_follower_balance, get_active_master_id,
}
use ether_trade.CopyTrading.Service.Allocation.{Allocated, create_subscription-Allocated}
use ether_trade.CopyTrading.Service.FastPath.{active_row}
use ether_trade.CopyTrading.Service.Invariant.{after, subscribe, after-IsConsistent}
use ether_trade.CopyTrading.Service.Consistency.{IsConsistent}
use ether_trade.CopyTrading.Replication.Types.{placed, OrdersClient, World, ReplicationEnv}
use ether_trade.CopyTrading.Replication.Follower.{replicate_for_subscriber}
use ether_trade.CopyTrading.Replication.Messages.{
  handle_message, replicate_tasks, replicate_master_trade, side_tasks, Replicated, replicated,
  heartbeat_failed,
}
use ether_trade.Common.Batches.{execute_in_batches, run_all}
use ether_trade.CopyTrading.Replication.Positions.{NeverShort, handle_message-NeverShort}
use ether_trade.CopyTrading.Replication.Coverage.{IsQuiet}
use ether_trade.CopyTrading.Replication.Liveness.{AllCovered, handle_message_covers}
use ether_trade.CopyTrading.Replication.Once.{handle_message_once}
use ether_trade.CopyTrading.Calculator.{
  calculate_sell_quantity, min_lots, min_lot, calculate_sub_position,
}
use ether_trade.CopyTrading.Sample.{exact, exact-Rounds}

abbrev master : MasterTrader
master = record {
  id = 1;
  user_id = 10;
  display_name = text "ada";
  bio = none;
  total_copiers = 1;
  min_deposit = 5000000000;
  is_active = true;
  created_at = 0;
  updated_at = 0;
}

abbrev subscription : CopySubscription
subscription = record {
  id = 2;
  follower_user_id = 20;
  master_id = 1;
  allocated_balance = 10000000000;
  max_slippage_percent = 100;
  status = active;
  created_at = 0;
  updated_at = 0;
}

-- The follower has bought two units of bitcoin with the subscription.
abbrev bought_two : CopyOrderHistory
bought_two = record {
  subscription_id = 2;
  master_trade_id = text "t0";
  follower_order_id = some 70;
  pair = text "BTC_USDT";
  master_side = buy;
  replicated_quantity = 200000000;
  replicated_price = 1;
  status = completed;
  failure_reason = none;
  created_at = 0;
}

abbrev tables : Database
tables = record {
  masters = master ∷ [];
  subscriptions = subscription ∷ [];
  history = bought_two ∷ [];
  processed_events = [];
}

abbrev state : State
state = record { db = tables; active_masters = (10, 1) ∷ []; masters_set = []; cache = [] }

-- Everybody has a thousand of everything.
abbrev env : Env
env = record {
  now = 5;
  new_id = 3;
  valkey_answers = true;
  get_balance = λ user currency. some (some 100000000000);
  meanwhile = λ d. d;
}

abbrev second_follower : CreateSubscriptionRequest
second_follower = record {
  follower_user_id = 21;
  master_id = 1;
  allocated_balance = 6000000000;
  max_slippage_percent = none;
}

create_subscription-Allocated_example :
    Allocated 21 100000000000 tables (create_subscription env second_follower state)
unfolding get_master_or_follower_balance select_first
create_subscription-Allocated_example =
    create_subscription-Allocated env second_follower state (λ d. refl) (tt, tt)

-- It is accepted, and the master has two copiers.
second_follower_accepted :
    map
      (λ (m : MasterTrader). m.total_copiers)
      (create_subscription env second_follower state).1.db.masters
    ≡ 2 ∷ []
unfolding create_subscription select_first select_all update_where
second_follower_accepted = refl

state-IsConsistent : IsConsistent state
unfolding get_active_master_id active_row
state-IsConsistent = record {
  master_ids = (tt, tt);
  users = (tt, tt);
  subscription_ids = (tt, tt);
  never_paused = (refl, tt);
  counted = (refl, tt);
  fast_path = λ user. refl;
}

after-IsConsistent_example : IsConsistent (after env (subscribe second_follower) state)
unfolding select_first
after-IsConsistent_example =
    after-IsConsistent env (subscribe second_follower) state state-IsConsistent (λ d. refl)
      (refl, refl, (omega arith, tt))

abbrev sale : Trade
sale = record {
  trade_id = text "t1";
  buyer_user_id = 99;
  seller_user_id = 10;
  symbol = text "BTC_USDT";
  price = 6000000000000;
  quantity = 50000000000;
  buyer_limit_price = 6000000000000;
}

abbrev envelope : Envelope
envelope = record {
  event_id = some 7;
  event_type = text "matching.trade_executed";
  action = some (text "TRADE_EXECUTED");
  payload = some sale;
}

abbrev sale_message : Message
sale_message = record { value = some envelope; action_header = none }

-- An orders service that takes every order and counts them.
abbrev counting : OrdersClient ℕ
counting = record { create_order = λ r n. (placed (some n), n + 1) }

abbrev handling : ReplicationEnv
handling = record {
  service = env;
  numbers = exact;
  lots = min_lots;
  token = λ follower. follower + 1000;
  lock_answers = λ follower. true;
  release_answers = λ follower. true;
  locks_meanwhile = λ locks. locks;
  sorted = λ rows. rows;
  heartbeat = λ side n. true;
}

abbrev world : World ℕ
world = record { service = state; locks = []; orders = 0 }

-- The master sells half of the bitcoins, and the follower half of the two.
sale_copied :
    map
      (λ (h : CopyOrderHistory). h.replicated_quantity)
      (handle_message counting handling sale_message world).1.service.db.history
    ≡ 200000000 ∷ 100000000 ∷ []
unfolding handle_message replicate_tasks replicate_master_trade replicate_for_subscriber
    execute_in_batches run_all select_first select_all text_eq min_lot split_from total_quantity
    calculate_sub_position get_active_master_id calculate_sell_quantity
    get_master_or_follower_balance find_by_subscription_and_trade
sale_copied = refl

tables-NeverShort : NeverShort tables
unfolding total_quantity
tables-NeverShort id pair = ground arith

handle_message-NeverShort_example :
    NeverShort (handle_message counting handling sale_message world).1.service.db
handle_message-NeverShort_example =
    handle_message-NeverShort counting handling exact-Rounds sale_message world tables-NeverShort

handling-IsQuiet : IsQuiet handling
handling-IsQuiet = record {
  locks_answer = λ follower. refl;
  releases_answer = λ follower. refl;
  untouched = λ locks. refl;
}

handle_message_covers_example :
    AllCovered counting handling handling-IsQuiet
      (λ side n. refl)
      tables
      (side_tasks state.active_masters sale)
      (handle_message counting handling sale_message world).1
unfolding text_eq is_processed select_first
handle_message_covers_example =
    handle_message_covers counting handling handling-IsQuiet (λ side n. refl) sale_message world
      envelope 7 sale refl refl refl refl refl refl

sale_handled : (handle_message counting handling sale_message world).0 ≡ replicated
unfolding handle_message replicate_tasks replicate_master_trade replicate_for_subscriber
    execute_in_batches run_all select_first select_all text_eq min_lot split_from total_quantity
    calculate_sub_position get_active_master_id calculate_sell_quantity
    get_master_or_follower_balance find_by_subscription_and_trade
sale_handled = refl

without_failure : (r : Replicated) → r ≡ replicated → r ≢ heartbeat_failed
without_failure r is e = cc

handle_message_once_example :
    (handle_message counting handling sale_message
      (handle_message counting handling sale_message world).1).1
    ≡ (handle_message counting handling sale_message world).1
handle_message_once_example =
    handle_message_once counting handling handling sale_message world
      (without_failure (handle_message counting handling sale_message world).0 sale_handled)

-- Each task doubles a number and counts.
abbrev doubling : ℕ → ℕ → ℕ × ℕ
doubling x n = (x * 2, n + 1)
