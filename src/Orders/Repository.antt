-- ===== src/Orders/Repository.antt =====
-- apps/orders/src/orders/orders.repository.ts over the list of order rows.
use ether_trade.Prelude.{
  ℕ, Bool, true, ◌&&◌, Option, none, some, List, [], ◌∷◌, ◌++◌, Text, text_eq, ◌==◌, min, max,
  length, take, drop, select_first, select_all, update_where,
}
use mathlib.Core.Option
use ether_trade.Orders.Types.{
  OrderStatus, pending, open_status, filled, partially_filled, cancelled, rejected, is_active,
  Order,
}

abbrev pub has_id : ℕ → Order → Bool
has_id id o = o.id == id

-- `create`: the row that the database returns is the one that it was given.
unfoldable pub create : Order → List Order → Order × List Order
create o rows = (o, rows ++ o ∷ [])

unfoldable pub find_by_id : ℕ → List Order → Option Order
find_by_id id rows = select_first (has_id id) rows

abbrev pub owned : ℕ → ℕ → Order → Bool
owned id user_id o = o.id == id && o.user_id == user_id

unfoldable pub find_by_id_and_user_id : ℕ → ℕ → List Order → Option Order
find_by_id_and_user_id id user_id rows = select_first (owned id user_id) rows

-- `FindOrdersFilter`
pub record OrdersFilter : Type 0 where
  pub user_id : ℕ
  pub pair : Option Text
  pub status : Option OrderStatus
  pub limit : Option ℕ
  pub offset : Option ℕ

abbrev pub status_code : OrderStatus → ℕ
status_code pending = 0
status_code open_status = 1
status_code filled = 2
status_code partially_filled = 3
status_code cancelled = 4
status_code rejected = 5

abbrev pub pair_fits : Option Text → Order → Bool
pair_fits none o = true
pair_fits (some []) o = true
pair_fits (some (c ∷ t)) o = text_eq o.pair (c ∷ t)

abbrev pub status_fits : Option OrderStatus → Order → Bool
status_fits none o = true
status_fits (some s) o = status_code o.status == status_code s

abbrev pub filter_fits : OrdersFilter → Order → Bool
filter_fits f o = o.user_id == f.user_id && pair_fits f.pair o && status_fits f.status o

abbrev pub or_default : Option ℕ → ℕ → ℕ
or_default none d = d
or_default (some n) d = n

-- `findMany`; the database's `order by created_at desc` is a parameter. Limits and offsets are
-- unsigned, as their callers send them.
unfoldable pub find_many : (List Order → List Order) → OrdersFilter → List Order → List Order × ℕ
find_many newest_first f rows =
    let limit = min (max (or_default f.limit 20) 1) 100 in
    let offset = or_default f.offset 0 in
    let fitting = select_all (filter_fits f) rows in
    (take limit (drop offset (newest_first fitting)), length fitting)

-- `findActiveOrdersByPair`, ordered by `created_at`.
unfoldable pub find_active_orders_by_pair :
    (List Order → List Order) → Option Text → List Order → List Order
find_active_orders_by_pair oldest_first pair rows =
    oldest_first (select_all (λ o. is_active o.status && pair_fits pair o) rows)

pub record Execution : Type 0 where
  pub filled_amount : ℕ
  pub remaining_amount : ℕ
  pub status : OrderStatus

abbrev pub executed : ℕ → Execution → Order → Order
executed now x o = record o {
  filled_amount = x.filled_amount;
  remaining_amount = x.remaining_amount;
  status = x.status;
  updated_at = now;
}

-- `updateExecution`, with the row that it returns.
unfoldable pub update_execution : ℕ → ℕ → Execution → List Order → Option Order × List Order
update_execution now id x rows = (
  Option.map (executed now x) (select_first (has_id id) rows),
  update_where (has_id id) (executed now x) rows,
)

abbrev pub cancel_fits : ℕ → ℕ → Order → Bool
cancel_fits id user_id o = o.id == id && o.user_id == user_id && is_active o.status

abbrev pub cancelled_order : ℕ → Order → Order
cancelled_order now o = record o { status = cancelled; updated_at = now }

-- `cancel`
unfoldable pub cancel : ℕ → ℕ → ℕ → List Order → Option Order × List Order
cancel now id user_id rows = (
  Option.map (cancelled_order now) (select_first (cancel_fits id user_id) rows),
  update_where (cancel_fits id user_id) (cancelled_order now) rows,
)
