-- ===== src/CopyTrading/Replication/Types.antt =====
-- The types of apps/copy-trading/src/consumers/master-trade-replication.consumer.ts.
use ether_trade.Prelude.{ℕ, Bool, Option, List, Text}
use ether_trade.Orders.Types.{OrderSide}
use ether_trade.CopyTrading.Types.{CopySubscription, Database, HeldLock}
use ether_trade.CopyTrading.Calculator.{BigNumbers, MinLots}
use ether_trade.CopyTrading.Caches.{State, Env}

-- `ReplicationSideTask`
pub record ReplicationSideTask : Type 0 where
  pub master_id : ℕ
  pub master_user_id : ℕ
  pub side : OrderSide
  pub master_price : ℕ
  pub master_quantity : ℕ
  pub pair : Text
  pub trade_id : Text

-- `createOrder` of the orders service, with the key `copy:<trade>:<follower>`.
pub record CopyOrderRequest : Type 0 where
  pub user_id : ℕ
  pub pair : Text
  pub side : OrderSide
  pub price : ℕ
  pub amount : ℕ
  pub idempotency_key : Text × ℕ

pub data Placed : Type 0 where
  placed : Option ℕ → Placed
  refused : Text → Placed

-- The orders service as its client sees it.
pub record OrdersClient (X : Type 0) : Type 0 where
  pub create_order : CopyOrderRequest → X → Placed × X

pub record World (X : Type 0) : Type 0 where
  pub service : State
  pub locks : List HeldLock
  pub orders : X

-- What a message's handling takes from outside: the service's own; bignumber.js; the minimum lots;
-- the token that is drawn for a follower's lock, whether Valkey answers when it is taken and given
-- back, and what happens to the locks in between; how the database sorts; whether the heartbeat after
-- a batch succeeds.
pub record ReplicationEnv : Type 0 where
  pub service : Env
  pub numbers : BigNumbers
  pub lots : MinLots
  pub token : ℕ → ℕ
  pub lock_answers : ℕ → Bool
  pub release_answers : ℕ → Bool
  pub locks_meanwhile : List HeldLock → List HeldLock
  pub sorted : List CopySubscription → List CopySubscription
  pub heartbeat : OrderSide → ℕ → Bool

abbrev pub with_db : {X : Type 0} → World X → Database → World X
with_db w d = record w { service = record w.service { db = d } }
