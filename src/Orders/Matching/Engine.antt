-- ===== src/Orders/Matching/Engine.antt =====
-- `executeMatch` of apps/orders/src/orders/matching-engine.service.ts.
use ether_trade.Prelude.{ℕ, ◌/◌, Option, none, some, List, [], ◌==◌, ltb, if◌then◌else◌}
use ether_trade.Orders.Types.{
  OrderStatus, open_status, filled, partially_filled, Order, OrderbookEntry, MatchResult,
}
use ether_trade.Orders.Repository.{update_execution}
use ether_trade.Orders.Orderbook.{Valkey, get_best_opposing_orders, add_order}
use ether_trade.Orders.Matching.Loop.{Store, Progress, MatchEnv, match_loop}

abbrev pub start : Order → Store → Progress
start taker s = record {
  remaining = taker.remaining_amount;
  filled_so_far = taker.filled_amount;
  trades = [];
  makers = [];
  store = s;
}

-- `getBestOpposingOrders(pair, side)` with its default limit.
abbrev pub opposing : Valkey → Order → Store → List OrderbookEntry
opposing v taker s = get_best_opposing_orders v taker.pair taker.side 50 s.book

abbrev pub taker_status : ℕ → ℕ → OrderStatus
taker_status remaining filled_so_far =
    if remaining == 0 then filled else if ltb 0 filled_so_far then partially_filled else open_status

abbrev pub resting_entry : Order → ℕ → OrderbookEntry
resting_entry taker remaining = record {
  order_id = taker.id;
  user_id = taker.user_id;
  pair = taker.pair;
  side = taker.side;
  type = taker.type;
  price = taker.price;
  amount = taker.amount;
  remaining_amount = remaining;
  created_at = taker.created_at / 1000;
}

abbrev pub or_taker : Option Order → Order → Order
or_taker none taker = taker
or_taker (some o) taker = o

-- The taker's row and, if something remains, its place in the book.
unfoldable pub conclude : Valkey → MatchEnv → Order → Progress → MatchResult × Store
unfolding update_execution add_order
conclude v env taker st =
    let (updated, orders) =
      update_execution env.now taker.id
        (record {
          filled_amount = st.filled_so_far;
          remaining_amount = st.remaining;
          status = taker_status st.remaining st.filled_so_far;
        })
        st.store.orders in
    (
      record {
        taker_order = or_taker updated taker;
        maker_orders_updated = st.makers;
        trades = st.trades;
      },
      record {
        orders = orders;
        book =
            if st.remaining == 0
            then st.store.book
            else add_order v (resting_entry taker st.remaining) st.store.book;
      },
    )

unfoldable pub execute_match : Valkey → MatchEnv → Order → Store → MatchResult × Store
unfolding get_best_opposing_orders match_loop conclude
execute_match v env taker s =
    conclude v env taker (match_loop env taker (opposing v taker s) (start taker s))
