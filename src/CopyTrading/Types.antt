-- ===== src/CopyTrading/Types.antt =====
-- The tables of apps/copy-trading/src/database/schema and the calls of
-- apps/copy-trading/src/copy-trading.service.ts. Amounts and prices are numbers of units of 10^-8, a
-- percentage is a number of hundredths; neither is below zero.
use ether_trade.Prelude.{ℕ, Bool, Option, List, Text, text}
use ether_trade.Orders.Types.{OrderSide}

-- The profit and the win rate, which the program never writes, are left out.
pub record MasterTrader : Type 0 where
  pub id : ℕ
  pub user_id : ℕ
  pub display_name : Text
  pub bio : Option Text
  pub total_copiers : ℕ
  pub min_deposit : ℕ
  pub is_active : Bool
  pub created_at : ℕ
  pub updated_at : ℕ

pub data SubscriptionStatus : Type 0 where
  active paused terminated : SubscriptionStatus

pub record CopySubscription : Type 0 where
  pub id : ℕ
  pub follower_user_id : ℕ
  pub master_id : ℕ
  pub allocated_balance : ℕ
  pub max_slippage_percent : ℕ
  pub status : SubscriptionStatus
  pub created_at : ℕ
  pub updated_at : ℕ

pub data CopyOrderStatus : Type 0 where
  pending completed failed skipped : CopyOrderStatus

-- The id, which nothing reads, is left out.
pub record CopyOrderHistory : Type 0 where
  pub subscription_id : ℕ
  pub master_trade_id : Text
  pub follower_order_id : Option ℕ
  pub pair : Text
  pub master_side : OrderSide
  pub replicated_quantity : ℕ
  pub replicated_price : ℕ
  pub status : CopyOrderStatus
  pub failure_reason : Option Text
  pub created_at : ℕ

pub record ProcessedEvent : Type 0 where
  pub event_id : ℕ
  pub event_type : Text
  pub consumer_group : Text
  pub processed_at : ℕ

pub record Database : Type 0 where
  pub masters : List MasterTrader
  pub subscriptions : List CopySubscription
  pub history : List CopyOrderHistory
  pub processed_events : List ProcessedEvent

-- A balance in Valkey, `copy:master:balance:<user>:<currency>`.
pub record CachedBalance : Type 0 where
  pub user_id : ℕ
  pub currency : Text
  pub balance : ℕ
  pub expires_at : ℕ

-- A lock in Valkey, `lock:copy:follower:<user>`, by the user of its key, and its owner's token.
pub record HeldLock : Type 0 where
  pub follower : ℕ
  pub token : ℕ

abbrev pub below_min_lot : Text
below_min_lot = text "BELOW_MIN_LOT"

abbrev pub default_min_deposit : ℕ
default_min_deposit = 5000000000

abbrev pub default_max_slippage : ℕ
default_max_slippage = 100

abbrev pub cache_ttl : ℕ
cache_ttl = 5
