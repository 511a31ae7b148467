-- ===== src/Orders/Service/Create.antt =====
-- `createOrder` of apps/orders/src/orders/orders.service.ts.
mod Checks
unfoldable pub use Checks.*
use ether_trade.Prelude.{
  ℕ, suc, ◌+◌, ◌*◌, Bool, true, false, ◌||◌, Option, none, some, List, [], ◌∷◌, ◌++◌, Text, text,
  text_eq, if◌then◌else◌, length,
}
use ether_trade.Prelude.Int.{ℤ, pos}
use ether_trade.Orders.Types.{OrderSide, OrderType, open_status, is_filled, Order, MatchResult}
use ether_trade.Orders.Repository.{create}
use ether_trade.Orders.Orderbook.{Book, Valkey, next_sequence, get_level_total_quantity}
use ether_trade.Orders.Matching.Loop.{MatchEnv}
use ether_trade.Orders.Matching.Engine.{execute_match}
use ether_trade.Orders.Outbox.Types.{OutboxEvent}
use ether_trade.Orders.Outbox.Repository.{TraceContext, insert_many}
use ether_trade.Orders.Service.Types.{
  CreateOrderRequest, ServiceError, unsupported_pair, invalid_price, invalid_amount,
  idempotency_in_progress, idempotency_payload_mismatch, payment_required, unique_violation,
  database_failed, OrderItem, map_order_to_item, in_progress, completed, failed, IdempotencyRecord,
  BalanceRequest, AccountsClient, World, Result, ok, error, held_currency, held_amount,
}
use ether_trade.Orders.Service.Idempotency.{
  find_record, create_record, complete_record, fail_record,
}
use ether_trade.Orders.Service.Events.{EventEnv, placed_event, trade_events, filled_events}

-- What the transaction's body has written, and the book, which it has changed as it went.
pub record Work : Type 0 where
  pub taker : Order
  pub orders : List Order
  pub written : List OutboxEvent
  pub book : Book

abbrev pub taker_filled : Order → List Order
taker_filled o = if is_filled o.status then o ∷ [] else []

-- The events of a match after the one for the placed order.
abbrev pub match_events : EventEnv → MatchResult → Book → List OutboxEvent × Book
match_events env result b =
    let (executed, b') = trade_events env 1 result.trades b in
    (
      executed
          ++ filled_events env (length result.trades + 1)
              (taker_filled result.taker_order ++ result.maker_orders_updated),
      b',
    )

unfoldable pub unit_of_work : CreateEnv → CreateOrderRequest → List Order → Book → Work
unfolding create next_sequence get_level_total_quantity placed_event execute_match trade_events
    filled_events
unit_of_work env r rows b =
    let (o, rows1) = create (initial_order env r) rows in
    let (sequence_id, b1) = next_sequence o.pair b in
    let total = get_level_total_quantity env.valkey o.pair o.side o.price b1 in
    let (result, s) =
      execute_match env.valkey env.matching o (record { orders = rows1; book = b1 }) in
    let (later, b2) = match_events env.eventing result s.book in
    record {
      taker = result.taker_order;
      orders = s.orders;
      written = placed_event env.eventing 0 o sequence_id total ∷ later;
      book = b2;
    }

abbrev pub message_or : Text → Text → Text
message_or [] fallback = fallback
message_or (c ∷ m) fallback = c ∷ m

module _ {X : Type 0} where
  -- The `catch` after the transaction: the rows are rolled back, the book is not. The outcome of
  -- the unlock is logged only.
  unfoldable pub compensate :
      CreateEnv
      → AccountsClient X
      → CreateOrderRequest
      → Book
      → World X
      → Result OrderItem × World X
  unfolding hold fail_record
  compensate env client r b w = (
    error database_failed,
    record w {
      book = b;
      accounts = (client.unlock_balance (hold env (text "unlock:") r) w.accounts).1;
      records = fail_record env.record_id w.records;
    },
  )

  unfoldable pub committed : CreateEnv → Work → World X → Result OrderItem × World X
  unfolding insert_many complete_record
  committed env work w =
      let item = map_order_to_item work.taker in
      (
        ok item,
        record w {
          orders = work.orders;
          events = insert_many env.trace work.written w.events;
          book = work.book;
          records = complete_record env.record_id item w.records;
        },
      )

  -- From the transaction on.
  unfoldable pub place :
      CreateEnv → AccountsClient X → CreateOrderRequest → World X → Result OrderItem × World X
  unfolding unit_of_work compensate committed
  place env client r w =
      let work = unit_of_work env r w.orders w.book in
      if env.database_fails then compensate env client r work.book w else committed env work w

  -- After the answer of the accounts service to the lock.
  unfoldable pub after_lock :
      CreateEnv
      → AccountsClient X
      → CreateOrderRequest
      → Option Text
      → World X
      → Result OrderItem × World X
  unfolding hold fail_record place
  after_lock env client r (some m) w =
      let request = hold env (text "lock:") r in
      (
        error (payment_required (message_or m (env.insufficient request.currency request.amount))),
        record w { records = fail_record env.record_id w.records },
      )
  after_lock env client r none w = place env client r w

  unfoldable pub lock_and_place :
      CreateEnv → AccountsClient X → CreateOrderRequest → World X → Result OrderItem × World X
  unfolding hold after_lock
  lock_and_place env client r w =
      let (refused, x) = client.lock_balance (hold env (text "lock:") r) w.accounts in
      after_lock env client r refused (record w { accounts = x })

  abbrev pub after_record :
      CreateEnv
      → AccountsClient X
      → CreateOrderRequest
      → Option (List IdempotencyRecord)
      → World X
      → Result OrderItem × World X
  after_record env client r none w = (error unique_violation, w)
  after_record env client r (some rows) w =
      lock_and_place env client r (record w { records = rows })

  abbrev pub after_check :
      CreateEnv
      → AccountsClient X
      → CreateOrderRequest
      → Option (Result OrderItem)
      → World X
      → Result OrderItem × World X
  after_check env client r (some given) w = (given, w)
  after_check env client r none w =
      after_record env client r (create_record (new_record env r) w.records) w

  abbrev pub after_validation :
      CreateEnv
      → AccountsClient X
      → CreateOrderRequest
      → Option ServiceError
      → World X
      → Result OrderItem × World X
  after_validation env client r (some e) w = (error e, w)
  after_validation env client r none w =
      after_check env client r
        (replayed (request_hash env r)
          (find_record env.now r.user_id operation r.idempotency_key w.records))
        w

  unfoldable pub create_order :
      CreateEnv → AccountsClient X → CreateOrderRequest → World X → Result OrderItem × World X
  unfolding validate_create_order_request find_record replayed create_record lock_and_place
  create_order env client r w =
      after_validation env client r (validate_create_order_request env.parse r) w
