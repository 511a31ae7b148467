-- ===== src/CopyTrading/Service.antt =====
-- apps/copy-trading/src/copy-trading.service.ts.
pub mod Allocation
pub mod FastPath
pub mod Copiers
pub mod Consistency
pub mod Invariant
use ether_trade.Prelude.{
  ℕ, ◌+◌, Bool, true, false, not, ◌&&◌, Option, none, some, List, [], ◌∷◌, ◌++◌, map, Text, text,
  text_eq, ◌==◌, ltb, if◌then◌else◌, select_first, select_all,
}
use ether_trade.CopyTrading.Types.{
  MasterTrader, active, terminated, CopySubscription, Database, CachedBalance, default_min_deposit,
  default_max_slippage, cache_ttl,
}
use ether_trade.CopyTrading.Repository.{
  is_active_status, is_terminated, find_master, find_master_by_user, find_all_active, create_master,
  find_many, increment_copiers, decrement_copiers, find_subscription, find_by_follower_and_master,
  find_by_follower, find_active_by_follower, create_subscription_row, reactivate_subscription,
  update_status,
}
use ether_trade.CopyTrading.Caches.{
  type_error, Result, ok, error, State, Env, cached_balance, balance_from,
  get_master_or_follower_balance, master_not_found, master_inactive, insufficient_deposit,
  subscription_already_exists, allocation_exceeds_balance, subscription_not_found, unique_violation,
}

pub record RegisterMasterRequest : Type 0 where
  pub user_id : ℕ
  pub display_name : Text
  pub bio : Option Text
  pub min_deposit : Option ℕ

abbrev pub or_default : ℕ → Option ℕ → ℕ
or_default n none = n
or_default n (some m) = m

abbrev pub new_master : Env → RegisterMasterRequest → MasterTrader
new_master env r = record {
  id = env.new_id;
  user_id = r.user_id;
  display_name = r.display_name;
  bio = r.bio;
  total_copiers = 0;
  min_deposit = or_default default_min_deposit r.min_deposit;
  is_active = true;
  created_at = env.now;
  updated_at = env.now;
}

-- `registerMaster`
abbrev pub registered : Env → MasterTrader → State → Option Database → Result MasterTrader × State
registered env m s none = (error unique_violation, s)
registered env m s (some d) = (
  ok m,
  record s {
    db = d;
    active_masters = (m.user_id, m.id) ∷ s.active_masters;
    masters_set = if env.valkey_answers then s.masters_set ++ m.user_id ∷ [] else s.masters_set;
  },
)

abbrev pub register_found :
    Env → RegisterMasterRequest → State → Option MasterTrader → Result MasterTrader × State
register_found env r s none =
    registered env (new_master env r) s (create_master (new_master env r) s.db)
register_found env r s (some m) = (if m.is_active then ok m else error master_inactive, s)

unfoldable pub register_master : Env → RegisterMasterRequest → State → Result MasterTrader × State
unfolding find_master_by_user create_master
register_master env r s = register_found env r s (find_master_by_user r.user_id s.db)

pub record CreateSubscriptionRequest : Type 0 where
  pub follower_user_id : ℕ
  pub master_id : ℕ
  pub allocated_balance : ℕ
  pub max_slippage_percent : Option ℕ

-- The sum of the active allocations, without the subscription that is to be reactivated.
abbrev pub is_same : Option CopySubscription → CopySubscription → Bool
is_same none s = false
is_same (some e) s = s.id == e.id

unfoldable pub current_allocated : Option CopySubscription → List CopySubscription → ℕ
current_allocated existing [] = 0
current_allocated existing (s ∷ rest) =
    (if is_same existing s then 0 else s.allocated_balance) + current_allocated existing rest

abbrev pub new_subscription : Env → CreateSubscriptionRequest → CopySubscription
new_subscription env r = record {
  id = env.new_id;
  follower_user_id = r.follower_user_id;
  master_id = r.master_id;
  allocated_balance = r.allocated_balance;
  max_slippage_percent = or_default default_max_slippage r.max_slippage_percent;
  status = active;
  created_at = env.now;
  updated_at = env.now;
}

-- The row is written, and then the copiers of the master are counted up.
abbrev pub created :
    Env
    → MasterTrader
    → CopySubscription
    → State
    → Option Database
    → Result CopySubscription × State
created env m sub s none = (error unique_violation, s)
created env m sub s (some d) = (ok sub, record s { db = increment_copiers env.now m.id d })

abbrev pub reactivated_result : Option CopySubscription → Result CopySubscription
reactivated_result none = error type_error
reactivated_result (some sub) = ok sub

unfoldable pub write_subscription :
    Env
    → CreateSubscriptionRequest
    → MasterTrader
    → Option CopySubscription
    → State
    → Result CopySubscription × State
unfolding create_subscription_row reactivate_subscription increment_copiers find_subscription
write_subscription env r m none s =
    created env m (new_subscription env r) s
      (create_subscription_row (new_subscription env r) (env.meanwhile s.db))
write_subscription env r m (some e) s =
    let d =
      reactivate_subscription e.id r.allocated_balance
        (or_default default_max_slippage r.max_slippage_percent) env.now (env.meanwhile s.db) in
    (
      reactivated_result (find_subscription e.id d),
      record s { db = increment_copiers env.now m.id d },
    )

abbrev pub usdt : Text
usdt = text "USDT"

-- The overcommit guard.
unfoldable pub guard_allocation :
    Env
    → CreateSubscriptionRequest
    → MasterTrader
    → Option CopySubscription
    → State
    → Result CopySubscription × State
unfolding write_subscription get_master_or_follower_balance find_active_by_follower
    current_allocated
guard_allocation env r m existing s0 =
    let (available, cache) = get_master_or_follower_balance env r.follower_user_id usdt s0.cache in
    let s = record s0 { cache = cache } in
    let allocated = current_allocated existing (find_active_by_follower r.follower_user_id s.db) in
    if ltb available (allocated + r.allocated_balance)
    then (error allocation_exceeds_balance, s)
    else write_subscription env r m existing s

abbrev pub is_subscribed : Option CopySubscription → Bool
is_subscribed none = false
is_subscribed (some s) = is_active_status s.status

abbrev pub create_for :
    Env → CreateSubscriptionRequest → MasterTrader → State → Result CopySubscription × State
create_for env r m s =
    let existing = find_by_follower_and_master r.follower_user_id r.master_id s.db in
    if not m.is_active
    then (error master_not_found, s)
    else if ltb r.allocated_balance m.min_deposit
    then (error insufficient_deposit, s)
    else if is_subscribed existing
    then (error subscription_already_exists, s)
    else guard_allocation env r m existing s

-- `createSubscription`
abbrev pub create_with_master :
    Env → CreateSubscriptionRequest → State → Option MasterTrader → Result CopySubscription × State
create_with_master env r s none = (error master_not_found, s)
create_with_master env r s (some m) = create_for env r m s

unfoldable pub create_subscription :
    Env → CreateSubscriptionRequest → State → Result CopySubscription × State
unfolding find_master find_by_follower_and_master guard_allocation
create_subscription env r s = create_with_master env r s (find_master r.master_id s.db)

-- `cancelSubscription`
unfoldable pub terminate : Env → CopySubscription → State → Result CopySubscription × State
unfolding update_status decrement_copiers find_subscription
terminate env sub s =
    let d = update_status sub.id terminated env.now (env.meanwhile s.db) in
    (
      reactivated_result (find_subscription sub.id d),
      record s { db = decrement_copiers env.now sub.master_id d },
    )

abbrev pub cancel_found :
    Env → ℕ → State → Option CopySubscription → Result CopySubscription × State
cancel_found env follower s none = (error subscription_not_found, s)
cancel_found env follower s (some sub) =
    if not (sub.follower_user_id == follower)
    then (error subscription_not_found, s)
    else if is_terminated sub.status
    then (ok sub, s)
    else terminate env sub s

unfoldable pub cancel_subscription : Env → ℕ → ℕ → State → Result CopySubscription × State
unfolding terminate find_subscription
cancel_subscription env id follower s = cancel_found env follower s (find_subscription id s.db)

-- `getSubscriptions` and `getMasterTraders`
abbrev pub get_subscriptions :
    (List CopySubscription → List CopySubscription) → ℕ → State → List CopySubscription
get_subscriptions sorted follower s = find_by_follower sorted follower s.db

abbrev pub get_master_traders :
    (List MasterTrader → List MasterTrader) → Option ℕ → Option ℕ → State → List MasterTrader × ℕ
get_master_traders sorted limit offset s = find_many sorted limit offset s.db
