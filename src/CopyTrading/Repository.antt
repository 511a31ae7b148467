-- ===== src/CopyTrading/Repository.antt =====
-- The queries of apps/copy-trading/src/database: master-traders.repository.ts,
-- copy-subscriptions.repository.ts, copy-orders-history.repository.ts and
-- processed-events.repository.ts. How the database sorts is a parameter.
use ether_trade.Prelude.{
  ℕ, ◌+◌, ◌-◌, Bool, true, false, ◌&&◌, Option, none, some, List, [], ◌∷◌, ◌++◌, Text, text_eq,
  ◌==◌, if◌then◌else◌, length, take, drop, select_first, select_all, update_where,
}
use ether_trade.Orders.Types.{OrderSide, buy, sell}
use ether_trade.CopyTrading.Types.{
  MasterTrader, SubscriptionStatus, active, paused, terminated, CopySubscription, CopyOrderStatus,
  completed, pending, failed, skipped, CopyOrderHistory, ProcessedEvent, Database,
}

abbrev pub is_active_status : SubscriptionStatus → Bool
is_active_status active = true
is_active_status paused = false
is_active_status terminated = false

abbrev pub is_terminated : SubscriptionStatus → Bool
is_terminated terminated = true
is_terminated active = false
is_terminated paused = false

abbrev pub is_completed : CopyOrderStatus → Bool
is_completed completed = true
is_completed pending = false
is_completed failed = false
is_completed skipped = false

abbrev pub is_some {ℓ} : {A : Type ℓ} → Option A → Bool
is_some none = false
is_some (some _) = true

-- master-traders.repository.ts

abbrev pub master_is : ℕ → MasterTrader → Bool
master_is id m = m.id == id

abbrev pub master_of : ℕ → MasterTrader → Bool
master_of user_id m = m.user_id == user_id

unfoldable pub find_master : ℕ → Database → Option MasterTrader
find_master id d = select_first (master_is id) d.masters

unfoldable pub find_master_by_user : ℕ → Database → Option MasterTrader
find_master_by_user user_id d = select_first (master_of user_id) d.masters

unfoldable pub find_all_active : Database → List MasterTrader
find_all_active d = select_all (λ m. m.is_active) d.masters

-- `user_id` is unique.
unfoldable pub create_master : MasterTrader → Database → Option Database
create_master m d =
    if is_some (find_master_by_user m.user_id d)
    then none
    else some (record d { masters = d.masters ++ m ∷ [] })

-- `findMany`: the page of the sorted rows, and how many there are.
abbrev pub offset_by {ℓ} : {A : Type ℓ} → Option ℕ → List A → List A
offset_by none xs = xs
offset_by (some n) xs = drop n xs

abbrev pub limited_to {ℓ} : {A : Type ℓ} → Option ℕ → List A → List A
limited_to none xs = xs
limited_to (some n) xs = take n xs

unfoldable pub find_many :
    (List MasterTrader → List MasterTrader) → Option ℕ → Option ℕ → Database → List MasterTrader × ℕ
find_many sorted limit offset d =
    let rows = select_all (λ m. m.is_active) d.masters in
    (limited_to limit (offset_by offset (sorted rows)), length rows)

abbrev pub changed_copiers : (ℕ → ℕ) → ℕ → MasterTrader → MasterTrader
changed_copiers f now m = record m { total_copiers = f m.total_copiers; updated_at = now }

-- `incrementCopiers(id, 1)` and `incrementCopiers(id, -1)`: `GREATEST(0, n + delta)`.
unfoldable pub increment_copiers : ℕ → ℕ → Database → Database
increment_copiers now id d = record d {
  masters = update_where (master_is id) (changed_copiers (λ n. n + 1) now) d.masters;
}

unfoldable pub decrement_copiers : ℕ → ℕ → Database → Database
decrement_copiers now id d = record d {
  masters = update_where (master_is id) (changed_copiers (λ n. n - 1) now) d.masters;
}

-- copy-subscriptions.repository.ts

abbrev pub subscription_is : ℕ → CopySubscription → Bool
subscription_is id s = s.id == id

abbrev pub follows : ℕ → ℕ → CopySubscription → Bool
follows follower master s = s.follower_user_id == follower && s.master_id == master

abbrev pub is_active_of_follower : ℕ → CopySubscription → Bool
is_active_of_follower follower s = s.follower_user_id == follower && is_active_status s.status

abbrev pub is_active_of_master : ℕ → CopySubscription → Bool
is_active_of_master master s = s.master_id == master && is_active_status s.status

unfoldable pub find_subscription : ℕ → Database → Option CopySubscription
find_subscription id d = select_first (subscription_is id) d.subscriptions

unfoldable pub find_by_follower_and_master : ℕ → ℕ → Database → Option CopySubscription
find_by_follower_and_master follower master d =
    select_first (follows follower master) d.subscriptions

unfoldable pub find_by_follower :
    (List CopySubscription → List CopySubscription) → ℕ → Database → List CopySubscription
find_by_follower sorted follower d =
    sorted (select_all (λ s. s.follower_user_id == follower) d.subscriptions)

unfoldable pub find_active_by_follower : ℕ → Database → List CopySubscription
find_active_by_follower follower d = select_all (is_active_of_follower follower) d.subscriptions

unfoldable pub find_active_by_master :
    (List CopySubscription → List CopySubscription) → ℕ → Database → List CopySubscription
find_active_by_master sorted master d =
    sorted (select_all (is_active_of_master master) d.subscriptions)

-- The pair of follower and master is unique.
unfoldable pub create_subscription_row : CopySubscription → Database → Option Database
create_subscription_row s d =
    if is_some (find_by_follower_and_master s.follower_user_id s.master_id d)
    then none
    else some (record d { subscriptions = d.subscriptions ++ s ∷ [] })

abbrev pub reactivated : ℕ → ℕ → ℕ → CopySubscription → CopySubscription
reactivated allocated slippage now s = record s {
  status = active;
  allocated_balance = allocated;
  max_slippage_percent = slippage;
  updated_at = now;
}

unfoldable pub reactivate_subscription : ℕ → ℕ → ℕ → ℕ → Database → Database
reactivate_subscription id allocated slippage now d = record d {
  subscriptions =
      update_where (subscription_is id) (reactivated allocated slippage now) d.subscriptions;
}

abbrev pub with_status : SubscriptionStatus → ℕ → CopySubscription → CopySubscription
with_status status now s = record s { status = status; updated_at = now }

unfoldable pub update_status : ℕ → SubscriptionStatus → ℕ → Database → Database
update_status id status now d = record d {
  subscriptions = update_where (subscription_is id) (with_status status now) d.subscriptions;
}

abbrev pub same_side : OrderSide → OrderSide → Bool
same_side buy buy = true
same_side buy sell = false
same_side sell buy = false
same_side sell sell = true

abbrev pub counts_for : ℕ → Text → OrderSide → CopyOrderHistory → Bool
counts_for id pair side h =
    h.subscription_id == id
    && text_eq h.pair pair
    && is_completed h.status
    && same_side h.master_side side

-- `coalesce(sum(quantity), 0)` over the completed rows of a side.
unfoldable pub total_quantity : ℕ → Text → OrderSide → List CopyOrderHistory → ℕ
total_quantity id pair side [] = 0
total_quantity id pair side (h ∷ hs) =
    (if counts_for id pair side h then h.replicated_quantity else 0)
    + total_quantity id pair side hs

-- `getSubscriptionPosition`: what was bought and what was sold.
unfoldable pub get_subscription_position : ℕ → Text → Database → ℕ × ℕ
get_subscription_position id pair d =
    (total_quantity id pair buy d.history, total_quantity id pair sell d.history)

-- copy-orders-history.repository.ts

abbrev pub copies : ℕ → Text → CopyOrderHistory → Bool
copies subscription trade h = h.subscription_id == subscription && text_eq h.master_trade_id trade

unfoldable pub find_by_subscription_and_trade : ℕ → Text → Database → Option CopyOrderHistory
find_by_subscription_and_trade subscription trade d =
    select_first (copies subscription trade) d.history

-- `onConflictDoNothing` on the unique pair of subscription and trade.
unfoldable pub create_history : CopyOrderHistory → Database → Database
create_history h d =
    if is_some (find_by_subscription_and_trade h.subscription_id h.master_trade_id d)
    then d
    else record d { history = d.history ++ h ∷ [] }

-- processed-events.repository.ts

unfoldable pub is_processed : ℕ → Database → Bool
is_processed event_id d = is_some (select_first (λ e. e.event_id == event_id) d.processed_events)

unfoldable pub mark_processed : ProcessedEvent → Database → Database
mark_processed e d =
    if is_processed e.event_id d
    then d
    else record d { processed_events = d.processed_events ++ e ∷ [] }
