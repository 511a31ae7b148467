-- ===== src/Orders/Orderbook.antt =====
-- apps/orders/src/orders/orderbook.service.ts: the order book in Valkey. Sorted sets and hashes are
-- the service's keys and what it has stored under them; what Valkey and JavaScript's numbers do
-- with them are parameters.
pub mod Levels
use ether_trade.Prelude.{
  ℕ, ◌+◌, ◌*◌, Bool, true, false, not, Option, none, some, List, [], ◌∷◌, ◌++◌, Text, text, text_eq,
  ◌==◌, leb, if◌then◌else◌, take,
}
use mathlib.Core.List.{reverse}
use ether_trade.Orders.Types.{OrderSide, buy, sell, is_buy, OrderbookEntry}

-- A member of a sorted set with its score.
abbrev pub Scored : Type 0
Scored = ℕ × ℕ

-- `sorted_sets` by key, the details hash of each order, and the sequence of each key.
pub record Book : Type 0 where
  pub sorted_sets : Text → List Scored
  pub details : ℕ → Option OrderbookEntry
  pub sequences : Text → ℕ

-- What is not the service's own: the members of a sorted set by ascending score (ZRANGE), and the
-- value of a price as a number (`toNumber`).
pub record Valkey : Type 0 where
  pub ranked : List Scored → List ℕ
  pub to_number : ℕ → ℕ

-- `ORDER_REDIS_KEYS.orderbookBids` and `orderbookAsks`
abbrev pub zset_key : OrderSide → Text → Text
zset_key buy pair = text "orderbook:buy:" ++ pair
zset_key sell pair = text "orderbook:sell:" ++ pair

abbrev pub sequence_key : Text → Text
sequence_key pair = text "orderbook:seq:" ++ pair

abbrev pub put {ℓ} : {A : Type ℓ} → Text → A → (Text → A) → Text → A
put k v f j = if text_eq j k then v else f j

abbrev pub put_details :
    ℕ → Option OrderbookEntry → (ℕ → Option OrderbookEntry) → ℕ → Option OrderbookEntry
put_details k v f j = if j == k then v else f j

-- ZREM, and ZADD of one member.
unfoldable pub zrem : ℕ → List Scored → List Scored
zrem id [] = []
zrem id (m ∷ ms) = let rest = zrem id ms in if m.0 == id then rest else m ∷ rest

unfoldable pub zadd : ℕ → ℕ → List Scored → List Scored
unfolding zrem
zadd id score ms = (id, score) ∷ zrem id ms

unfoldable pub add_order : Valkey → OrderbookEntry → Book → Book
unfolding zadd
add_order v e b = record b {
  sorted_sets =
      put (zset_key e.side e.pair)
        (zadd e.order_id (v.to_number e.price) (b.sorted_sets (zset_key e.side e.pair)))
        b.sorted_sets;
  details = put_details e.order_id (some e) b.details;
}

-- A hash that had no fields keeps none that `getOrderDetails` accepts.
abbrev pub with_remaining : ℕ → Option OrderbookEntry → Option OrderbookEntry
with_remaining r none = none
with_remaining r (some e) = some (record e { remaining_amount = r })

unfoldable pub update_remaining_amount : ℕ → ℕ → Book → Book
update_remaining_amount id r b = record b {
  details = put_details id (with_remaining r (b.details id)) b.details;
}

unfoldable pub remove_order : ℕ → Text → OrderSide → Book → Book
unfolding zrem
remove_order id pair side b = record b {
  sorted_sets =
      put (zset_key side pair) (zrem id (b.sorted_sets (zset_key side pair))) b.sorted_sets;
  details = put_details id none b.details;
}

unfoldable pub get_order_details : ℕ → Book → Option OrderbookEntry
get_order_details id b = b.details id

-- The loops that push the details that are there.
unfoldable pub collect : List ℕ → Book → List OrderbookEntry
unfolding get_order_details
collect [] b = []
collect (id ∷ ids) b =
    let rest = collect ids b in elim (get_order_details id b) [ none ↦ rest | some e ↦ e ∷ rest ]

-- ZRANGE from 0 to `n - 1`, in reverse for `{ reverse: true }`; an end of -1 is the last member.
abbrev pub up_to {ℓ} : {A : Type ℓ} → ℕ → List A → List A
up_to n xs = if n == 0 then xs else take n xs

abbrev pub zrange : Valkey → Bool → ℕ → List Scored → List ℕ
zrange v reversed n ms = up_to n (if reversed then reverse (v.ranked ms) else v.ranked ms)

unfoldable pub get_best_opposing_orders : Valkey → Text → OrderSide → ℕ → Book → List OrderbookEntry
unfolding collect
get_best_opposing_orders v pair taker_side n b =
    let key = if is_buy taker_side then zset_key sell pair else zset_key buy pair in
    collect (zrange v (not (is_buy taker_side)) n (b.sorted_sets key)) b

-- INCR, and the value that it returns.
unfoldable pub next_sequence : Text → Book → ℕ × Book
next_sequence pair b =
    let n = b.sequences (sequence_key pair) + 1 in
    (n, record b { sequences = put (sequence_key pair) n b.sequences })

unfoldable pub get_sequence : Text → Book → ℕ
get_sequence pair b = b.sequences (sequence_key pair)

unfoldable pub level_total : ℕ → List OrderbookEntry → ℕ
level_total price [] = 0
level_total price (e ∷ es) =
    (if e.price == price then e.remaining_amount else 0) + level_total price es

-- `getLevelTotalQuantity`: of the first 501 members, those at the price.
unfoldable pub get_level_total_quantity : Valkey → Text → OrderSide → ℕ → Book → ℕ
unfolding collect level_total
get_level_total_quantity v pair side price b =
    level_total (v.to_number price)
      (collect (zrange v false 501 (b.sorted_sets (zset_key side pair))) b)

pub record OrderBookLevel : Type 0 where
  pub price : ℕ
  pub amount : ℕ
  pub order_count : ℕ

-- The price map in insertion order: one entry is added to the level of its price.
unfoldable pub add_to_levels : OrderbookEntry → List OrderBookLevel → List OrderBookLevel
add_to_levels e [] = record { price = e.price; amount = e.remaining_amount; order_count = 1 } ∷ []
add_to_levels e (l ∷ ls) =
    let rest = add_to_levels e ls in
    if l.price == e.price
    then record l { amount = l.amount + e.remaining_amount; order_count = l.order_count + 1 } ∷ ls
    else l ∷ rest

unfoldable pub levels_from : List OrderBookLevel → List OrderbookEntry → List OrderBookLevel
unfolding add_to_levels
levels_from ls [] = ls
levels_from ls (e ∷ es) = levels_from (add_to_levels e ls) es

-- The loop that copies levels stops after a push that reaches the depth, so a depth of 0 copies one.
unfoldable pub copy_levels : ℕ → ℕ → List OrderBookLevel → List OrderBookLevel
copy_levels depth pushed [] = []
copy_levels depth pushed (l ∷ ls) =
    let rest = copy_levels depth (pushed + 1) ls in
    if leb depth (pushed + 1) then l ∷ [] else l ∷ rest

unfoldable pub aggregate_levels : List ℕ → ℕ → Book → List OrderBookLevel
unfolding collect levels_from copy_levels
aggregate_levels ids depth b = copy_levels depth 0 (levels_from [] (collect ids b))

pub record OrderBookResponse : Type 0 where
  pub pair : Text
  pub bids : List OrderBookLevel
  pub asks : List OrderBookLevel
  pub timestamp : ℕ
  pub sequence_id : ℕ

unfoldable pub get_order_book : Valkey → ℕ → Text → ℕ → Book → OrderBookResponse
unfolding aggregate_levels get_sequence
get_order_book v now pair depth b = record {
  pair = pair;
  bids = aggregate_levels (zrange v true (depth * 2) (b.sorted_sets (zset_key buy pair))) depth b;
  asks = aggregate_levels (zrange v false (depth * 2) (b.sorted_sets (zset_key sell pair))) depth b;
  timestamp = now;
  sequence_id = get_sequence pair b;
}

unfoldable pub rehydrate : Valkey → List OrderbookEntry → Book → Book
unfolding add_order
rehydrate v [] b = b
rehydrate v (e ∷ es) b = rehydrate v es (add_order v e b)
