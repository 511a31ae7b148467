-- ===== src/Orders/Service/Cancel.antt =====
-- `cancelOrder`, `getOrder`, `getOrders`, `getOrderBook` and `onModuleInit` of
-- apps/orders/src/orders/orders.service.ts.
use ether_trade.Prelude.{
  ℕ, ◌/◌, Option, none, some, List, ◌++◌, map, Text, text, ltb, if◌then◌else◌, ◌==◌,
}
use ether_trade.Orders.Types.{is_filled, is_cancelled, Order}
use ether_trade.Orders.Repository.{
  find_by_id_and_user_id, cancel, find_many, OrdersFilter, find_active_orders_by_pair,
}
use ether_trade.Orders.Orderbook.{
  Valkey, remove_order, next_sequence, get_level_total_quantity, OrderBookResponse, get_order_book,
  rehydrate,
}
use ether_trade.Orders.Outbox.Repository.{TraceContext, insert_event}
use ether_trade.Orders.Service.Types.{
  CancelOrderRequest, order_not_found, order_already_cancelled, order_already_filled,
  unsupported_pair, OrderItem, map_order_to_item, BalanceRequest, AccountsClient, World, Result, ok,
  error, held_currency, held_amount,
}
use ether_trade.Orders.Service.Events.{EventEnv, cancelled_event}
use ether_trade.Orders.Service.Create.{is_supported}

-- `others` is what other calls commit between the check of the order and its update.
pub record CancelEnv : Type 0 where
  pub to_fixed : ℕ → ℕ
  pub id_text : ℕ → Text
  pub now : ℕ
  pub valkey : Valkey
  pub eventing : EventEnv
  pub trace : TraceContext
  pub others : List Order → List Order

-- What is released: at the order's own price, what remained of it.
unfoldable pub release : CancelEnv → CancelOrderRequest → Order → BalanceRequest
release env r o = record {
  user_id = r.user_id;
  amount = held_amount env.to_fixed o.side o.price o.remaining_amount;
  currency = held_currency o.side o.pair;
  idempotency_key = text "cancel:" ++ r.idempotency_key;
  reference_id = env.id_text r.order_id;
}

-- `n || d`
abbrev pub or_number : Option ℕ → ℕ → ℕ
or_number none d = d
or_number (some n) d = if n == 0 then d else n

module _ {X : Type 0} where
  -- The outcome of the unlock is logged only.
  abbrev pub unlock_released : AccountsClient X → BalanceRequest → World X → World X
  unlock_released client request w = record w {
    accounts =
        if ltb 0 request.amount then (client.unlock_balance request w.accounts).1 else w.accounts;
  }

  -- The row is cancelled with its event, and what remained is released; or, if the row is not
  -- active by now, nothing is written.
  abbrev pub cancel_written :
      CancelEnv
      → AccountsClient X
      → CancelOrderRequest
      → ℕ
      → ℕ
      → Option Order
      → List Order
      → World X
      → Result OrderItem × World X
  cancel_written env client r sequence_id total none rows w = (error order_already_filled, w)
  cancel_written env client r sequence_id total (some o) rows w = (
    ok (map_order_to_item o),
    unlock_released client (release env r o) (record w {
      orders = rows;
      events = insert_event env.trace (cancelled_event env.eventing o sequence_id total) w.events;
    }),
  )

  unfoldable pub cancel_active :
      CancelEnv
      → AccountsClient X
      → CancelOrderRequest
      → Order
      → World X
      → Result OrderItem × World X
  unfolding remove_order next_sequence get_level_total_quantity cancel insert_event cancelled_event
      release
  cancel_active env client r o w =
      let b1 = remove_order r.order_id o.pair o.side w.book in
      let (sequence_id, b2) = next_sequence o.pair b1 in
      let total = get_level_total_quantity env.valkey o.pair o.side o.price b2 in
      let rows = env.others w.orders in
      let (updated, rows') = cancel env.now r.order_id r.user_id rows in
      cancel_written env client r sequence_id total updated rows'
        (record w { orders = rows; book = b2 })

  -- After the order has been looked up.
  unfoldable pub cancel_found :
      CancelEnv
      → AccountsClient X
      → CancelOrderRequest
      → Option Order
      → World X
      → Result OrderItem × World X
  unfolding cancel_active
  cancel_found env client r none w = (error order_not_found, w)
  cancel_found env client r (some o) w =
      if is_cancelled o.status
      then (error order_already_cancelled, w)
      else if is_filled o.status
      then (error order_already_filled, w)
      else cancel_active env client r o w

  unfoldable pub cancel_order :
      CancelEnv → AccountsClient X → CancelOrderRequest → World X → Result OrderItem × World X
  unfolding find_by_id_and_user_id cancel_found
  cancel_order env client r w =
      cancel_found env client r (find_by_id_and_user_id r.order_id r.user_id w.orders) w

  unfoldable pub get_order : ℕ → ℕ → World X → Result OrderItem
  unfolding find_by_id_and_user_id
  get_order order_id user_id w = elim (find_by_id_and_user_id order_id user_id w.orders) [
    | none ↦ error order_not_found
    | some o ↦ ok (map_order_to_item o)
  ]

  -- `x || d`: a limit of 0 is falsy, and so is an empty status.
  unfoldable pub get_orders :
      (List Order → List Order) → OrdersFilter → World X → List OrderItem × ℕ
  unfolding find_many
  get_orders newest_first f w =
      let (items, total) =
        find_many newest_first (record f { limit = some (or_number f.limit 20) }) w.orders in
      (map map_order_to_item items, total)

  unfoldable pub order_book_of : Valkey → ℕ → Text → ℕ → World X → Result OrderBookResponse
  unfolding get_order_book
  order_book_of v now pair depth w =
      if is_supported pair
      then ok (get_order_book v now pair depth w.book)
      else error unsupported_pair

  -- `onModuleInit`: the active orders, oldest first, into the book.
  unfoldable pub rehydrated : Valkey → (List Order → List Order) → World X → World X
  unfolding find_active_orders_by_pair rehydrate
  rehydrated v oldest_first w = record w {
    book =
        rehydrate v
          (map
            (λ (o : Order). record {
              order_id = o.id;
              user_id = o.user_id;
              pair = o.pair;
              side = o.side;
              type = o.type;
              price = o.price;
              amount = o.amount;
              remaining_amount = o.remaining_amount;
              created_at = o.created_at / 1000;
            })
            (find_active_orders_by_pair oldest_first none w.orders))
          w.book;
  }
