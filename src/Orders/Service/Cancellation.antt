-- ===== src/Orders/Service/Cancellation.antt =====
-- What `cancelOrder` of apps/orders/src/orders/orders.service.ts promises: an order is cancelled
-- once, is then out of the book, and what remained of it is released.
use ether_trade.Prelude.{
  ℕ, true, Option, none, some, List, [], ◌∷◌, Text, ◌≡◌, refl, ap, ◌∙◌, subst, arith, either_way,
  Bool-cases, inl, inr, ==_iff, select_first, update_where,
}
use ether_trade.Orders.Types.{is_filled, is_cancelled, is_active, Order}
use ether_trade.Orders.Repository.{
  find_by_id, find_by_id_and_user_id, owned, cancel, cancel_fits, cancelled_order,
}
use ether_trade.Orders.Orderbook.{Book, remove_order, next_sequence}
use ether_trade.Orders.Service.Types.{
  CancelOrderRequest, order_already_cancelled, order_already_filled, OrderItem, AccountsClient,
  World, Result, ok, error,
}
use ether_trade.Orders.Service.Cancel.{
  CancelEnv, cancel_written, cancel_active, cancel_found, cancel_order,
}

-- The primary key: no two rows have the same id.
abbrev pub UniqueOrders : List Order → Type 0
UniqueOrders [] = Unit
UniqueOrders (o ∷ rows) = (find_by_id o.id rows ≡ none) × UniqueOrders rows

no_row-no_match :
    (id user_id : ℕ) (rows : List Order)
    → find_by_id id rows ≡ none
    → select_first (cancel_fits id user_id) rows ≡ none
unfolding find_by_id select_first
no_row-no_match id user_id [] h = refl
no_row-no_match id user_id (o ∷ rows) h = ground (arith, no_row-no_match id user_id rows)

-- After the update the row is found, as cancelled.
cancel-find :
    (now id user_id : ℕ) (rows : List Order) (o : Order)
    → UniqueOrders rows
    → (cancel now id user_id rows).0 ≡ some o
    → (find_by_id_and_user_id id user_id (cancel now id user_id rows).1 ≡ some o)
      × (is_cancelled o.status ≡ true)
unfolding cancel find_by_id_and_user_id select_first update_where
cancel-find now id user_id [] o unique e = cc
cancel-find now id user_id (r ∷ rows) o unique e = elim (Bool-cases (owned id user_id r)) [
  | inr foreign ↦
      rw (foreign, foreign) (cancel-find now id user_id rows o unique.1 (rw foreign at e))
  | inl mine ↦ elim (Bool-cases (is_active r.status)) [
    | inl active ↦
        let this : some (cancelled_order now r) ≡ some o = rw (mine, active) at e in
        let is : cancelled_order now r ≡ o = cc in
        (rw (mine, active, mine) this, subst (λ (x : Order). is_cancelled x.status ≡ true) is refl)
    | inr closed ↦
        let id_is : r.id ≡ id = ground (arith, mine) in
        let elsewhere =
          no_row-no_match id user_id rows (subst (λ k. find_by_id k rows ≡ none) id_is unique.0) in
        let bad : none ≡ some o = rw (mine, closed, elsewhere) at e in cc
  ]
]

-- In the book there is nothing of an order that has been removed.
removed :
    (id : ℕ) (pair : Text) (o : Order) (b : Book)
    → (next_sequence pair (remove_order id o.pair o.side b)).1.details id ≡ none
unfolding remove_order next_sequence
removed id pair o b = rw ((==_iff id id).1 refl) refl

module _ {X : Type 0} where
  -- What a success of the call has done.
  abbrev IsCancelled : CancelOrderRequest → Result OrderItem × World X → Type 0
  IsCancelled r z =
      (item : OrderItem)
      → z.0 ≡ ok item
      → ((o : Order) × (find_by_id_and_user_id r.order_id r.user_id z.1.orders ≡ some o)
          × (is_cancelled o.status ≡ true))
        × (z.1.book.details r.order_id ≡ none)

  cancel_written-IsCancelled :
      (env : CancelEnv) (client : AccountsClient X) (r : CancelOrderRequest) (n total : ℕ)
      → (updated : Option Order) (rows : List Order) (w : World X)
      → ((o : Order)
          → updated ≡ some o
          → (find_by_id_and_user_id r.order_id r.user_id rows ≡ some o)
            × (is_cancelled o.status ≡ true))
      → w.book.details r.order_id ≡ none
      → IsCancelled r (cancel_written env client r n total updated rows w)
  cancel_written-IsCancelled env client r n total none rows w found gone item e = cc e
  cancel_written-IsCancelled env client r n total (some o) rows w found gone item e =
      ((o, (found o refl).0, (found o refl).1), gone)

  cancel_active-IsCancelled :
      (env : CancelEnv) (client : AccountsClient X) (r : CancelOrderRequest) (o : Order)
      (w : World X)
      → UniqueOrders (env.others w.orders)
      → IsCancelled r (cancel_active env client r o w)
  unfolding cancel_active
  cancel_active-IsCancelled env client r o w unique =
      let rows = env.others w.orders in
      let b = next_sequence o.pair (remove_order r.order_id o.pair o.side w.book) in
      cancel_written-IsCancelled env client r _ _ (cancel env.now r.order_id r.user_id rows).0
        (cancel env.now r.order_id r.user_id rows).1 (record w { orders = rows; book = b.1 })
        (λ x e. cancel-find env.now r.order_id r.user_id rows x unique e)
        (removed r.order_id o.pair o w.book)

  cancel_found-IsCancelled :
      (env : CancelEnv) (client : AccountsClient X) (r : CancelOrderRequest) (o : Option Order)
      → (w : World X) → UniqueOrders (env.others w.orders)
      → IsCancelled r (cancel_found env client r o w)
  unfolding cancel_found
  cancel_found-IsCancelled env client r none w unique = λ item e. cc e
  cancel_found-IsCancelled env client r (some o) w unique =
      either_way (IsCancelled r) (is_cancelled o.status) (error order_already_cancelled, w) _
        (λ item e. cc e)
        (either_way (IsCancelled r) (is_filled o.status) (error order_already_filled, w) _
          (λ item e. cc e) (cancel_active-IsCancelled env client r o w unique))

  cancel_found_again :
      (env : CancelEnv) (client : AccountsClient X) (r : CancelOrderRequest) (o : Order)
      (w : World X)
      → is_cancelled o.status ≡ true
      → cancel_found env client r (some o) w ≡ (error order_already_cancelled, w)
  unfolding cancel_found
  cancel_found_again env client r o w done = rw done refl

  -- Once an order has been cancelled, the book has nothing of it, and a further call for it by its
  -- user is refused and changes nothing: its funds are not released twice. The ids of the orders
  -- are distinct when the call updates them, whatever other calls have done since it began.
  pub cancel_order_once :
      (env later : CancelEnv) (client : AccountsClient X) (r again : CancelOrderRequest)
      → (item : OrderItem) (w w' : World X) → UniqueOrders (env.others w.orders)
      → cancel_order env client r w ≡ (ok item, w')
      → again.order_id ≡ r.order_id
      → again.user_id ≡ r.user_id
      → (w'.book.details r.order_id ≡ none)
        × (cancel_order later client again w' ≡ (error order_already_cancelled, w'))
  unfolding cancel_order
  cancel_order_once env later client r again item w w' unique end order user =
      let done : IsCancelled r (ok item, w') = subst (IsCancelled r) end (
        cancel_found-IsCancelled env client r (find_by_id_and_user_id r.order_id r.user_id w.orders)
          w unique) in
      let kept = done item refl in
      let row = kept.0 in
      let found : find_by_id_and_user_id again.order_id again.user_id w'.orders ≡ some row.0 =
        rw (order, user) row.1 in
      (
        kept.1,
        ap (λ o. cancel_found later client again o w') found
            ∙ cancel_found_again later client again row.0 w' row.2,
      )
