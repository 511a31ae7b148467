-- ===== src/Orders/Matching/Loop.antt =====
-- The loop of `executeMatch` in apps/orders/src/orders/matching-engine.service.ts.
use ether_trade.Prelude.{
  ℕ, ◌+◌, ◌-◌, Bool, Option, none, some, List, [], ◌∷◌, ◌++◌, Text, ◌==◌, leb, min, if◌then◌else◌,
  length,
}
use ether_trade.Orders.Types.{
  OrderSide, filled, partially_filled, is_buy, opposite, Order, OrderbookEntry, MatchedTrade,
}
use ether_trade.Orders.Repository.{find_by_id, update_execution, Execution}
use ether_trade.Orders.Orderbook.{Book, remove_order, update_remaining_amount}

-- The order rows and the book, which the transaction and Valkey hold.
pub record Store : Type 0 where
  pub orders : List Order
  pub book : Book

-- The local variables of `executeMatch`.
pub record Progress : Type 0 where
  pub remaining : ℕ
  pub filled_so_far : ℕ
  pub trades : List MatchedTrade
  pub makers : List Order
  pub store : Store

-- What a match takes from outside: the time, and the id that uuidv7 draws for each trade.
pub record MatchEnv : Type 0 where
  pub now : ℕ
  pub trade_id : ℕ → Text

-- `isPriceMatch`
abbrev pub crosses : OrderSide → ℕ → ℕ → Bool
crosses side taker_price maker_price =
    if is_buy side then leb maker_price taker_price else leb taker_price maker_price

unfoldable pub trade_of : Text → Order → OrderbookEntry → ℕ → MatchedTrade
trade_of id taker maker quantity =
    let buyer = is_buy taker.side in
    record {
      trade_id = id;
      maker_order_id = maker.order_id;
      taker_order_id = taker.id;
      maker_user_id = maker.user_id;
      taker_user_id = taker.user_id;
      buy_order_id = if buyer then taker.id else maker.order_id;
      sell_order_id = if buyer then maker.order_id else taker.id;
      buyer_user_id = if buyer then taker.user_id else maker.user_id;
      seller_user_id = if buyer then maker.user_id else taker.user_id;
      symbol = taker.pair;
      price = maker.price;
      quantity = quantity;
      buyer_limit_price = if buyer then taker.price else maker.price;
      buyer_fee = 0;
      seller_fee = 0;
    }

-- `currentMakerFilled`
abbrev pub maker_filled : Option Order → ℕ → ℕ
maker_filled none quantity = quantity
maker_filled (some o) quantity = o.filled_amount + quantity

abbrev pub pushed : Option Order → List Order → List Order
pushed none os = os
pushed (some o) os = os ++ o ∷ []

-- The maker's row after a fill of `quantity`.
abbrev pub maker_execution : OrderbookEntry → ℕ → List Order → Execution
maker_execution maker quantity orders = record {
  filled_amount = maker_filled (find_by_id maker.order_id orders) quantity;
  remaining_amount = maker.remaining_amount - quantity;
  status = if maker.remaining_amount - quantity == 0 then filled else partially_filled;
}

abbrev pub book_after : OrderSide → OrderbookEntry → ℕ → Book → Book
book_after side maker rest b =
    if rest == 0
    then remove_order maker.order_id maker.pair (opposite side) b
    else update_remaining_amount maker.order_id rest b

-- One maker that crosses: `BigNumber.min` bounds the quantity by both sides, so that the
-- subtractions do not fall below zero.
unfoldable pub fill : MatchEnv → Order → OrderbookEntry → Progress → Progress
unfolding update_execution trade_of
fill env taker maker st =
    let quantity = min st.remaining maker.remaining_amount in
    let rest = maker.remaining_amount - quantity in
    let (updated, orders) =
      update_execution env.now maker.order_id (maker_execution maker quantity st.store.orders)
        st.store.orders in
    record {
      remaining = st.remaining - quantity;
      filled_so_far = st.filled_so_far + quantity;
      trades = st.trades ++ trade_of (env.trade_id (length st.trades)) taker maker quantity ∷ [];
      makers = pushed updated st.makers;
      store = record { orders = orders; book = book_after taker.side maker rest st.store.book };
    }

unfoldable pub match_loop : MatchEnv → Order → List OrderbookEntry → Progress → Progress
match_loop env taker [] st = st
match_loop env taker (maker ∷ makers) st =
    let skipped = match_loop env taker makers st in
    let matched = match_loop env taker makers (fill env taker maker st) in
    if st.remaining == 0
    then st
    else if maker.user_id == taker.user_id
    then skipped
    else if crosses taker.side taker.price maker.price
    then matched
    else st
