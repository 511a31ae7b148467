-- ===== src/Orders/Matching/Consistency.antt =====
-- `executeMatch` of apps/orders/src/orders/matching-engine.service.ts keeps the rows of the orders
-- balanced and the book in agreement with them.
use ether_trade.Prelude.{
  ℕ, ◌+◌, ◌-◌, ◌≤◌, false, Option, none, some, List, [], ◌∷◌, ◌==◌, min, if◌then◌else◌, ◌≡◌, refl,
  sym, ap, ◌∙◌, subst, arith, All, Bool-cases, inl, inr, ==_iff,
}
use ether_trade.Orders.Types.{Order, OrderbookEntry}
use ether_trade.Orders.Repository.{find_by_id, update_execution}
use ether_trade.Orders.Orderbook.{Book, put_details, remove_order, update_remaining_amount}
use ether_trade.Orders.Matching.Loop.{
  MatchEnv, Store, Progress, crosses, maker_execution, book_after, fill, match_loop,
}
use ether_trade.Orders.Matching.Rows.{
  IsBalanced, AllBalanced, Mirrors, Fits, after_update, find_other, update-AllBalanced,
  update-Mirrors,
}

-- Each entry is what the book has of its order, and no order has two.
abbrev pub Shown : Book → OrderbookEntry → Type 0
Shown b e = b.details e.order_id ≡ some e

abbrev pub Distinct : List OrderbookEntry → Type 0
Distinct [] = Unit
Distinct (m ∷ ms) = All (λ e. (e.order_id == m.order_id) ≡ false) ms × Distinct ms

-- The rows and the book agree, and the taker is a row of which the book has nothing.
pub record IsConsistent (taker : Order) (s : Store) : Type 0 where
  pub balanced : AllBalanced s.orders
  pub mirrored : Mirrors s.orders s.book.details
  pub taker_row : find_by_id taker.id s.orders ≡ some taker
  pub not_resting : s.book.details taker.id ≡ none

-- What a fill leaves of a maker in the book.
abbrev pub left_of : OrderbookEntry → ℕ → Option OrderbookEntry
left_of m rest = if rest == 0 then none else some (record m { remaining_amount = rest })

details_after :
    (taker : Order) (m : OrderbookEntry) (rest : ℕ) (b : Book)
    → Shown b m
    → (book_after taker.side m rest b).details ≡ put_details m.order_id (left_of m rest) b.details
unfolding remove_order update_remaining_amount
details_after taker m rest b shown = elim (Bool-cases (rest == 0)) [
  | inl gone ↦ rw gone
  | inr more ↦ rw (more, shown)
]

taker_apart :
    (taker : Order) (m : OrderbookEntry) (s : Store)
    → IsConsistent taker s
    → Shown s.book m
    → (taker.id == m.order_id) ≡ false
taker_apart taker m s h shown = elim (Bool-cases (taker.id == m.order_id)) [
  | inl same ↦
      let resting : none ≡ some m =
        sym h.not_resting ∙ ap s.book.details ((==_iff taker.id m.order_id).0 same) ∙ shown in
      cc
  | inr apart ↦ apart
]

execution_total :
    (m : OrderbookEntry) (quantity : ℕ) (rows : List Order) (o : Order)
    → find_by_id m.order_id rows ≡ some o
    → o.remaining_amount ≡ m.remaining_amount
    → quantity ≤ m.remaining_amount
    → IsBalanced o
    → (maker_execution m quantity rows).filled_amount
        + (maker_execution m quantity rows).remaining_amount
      ≡ o.amount
execution_total m quantity rows o found same enough balanced = rw found (omega arith)

left-Fits :
    (m : OrderbookEntry) (quantity : ℕ) (rows : List Order)
    → Fits m.order_id (maker_execution m quantity rows) (left_of m (m.remaining_amount - quantity))
left-Fits m quantity rows = elim (Bool-cases (m.remaining_amount - quantity == 0)) [
  | inl gone ↦ rw gone tt
  | inr more ↦ rw more (refl, refl)
]

fill-IsConsistent :
    (env : MatchEnv) (taker : Order) (m : OrderbookEntry) (st : Progress)
    → Shown st.store.book m
    → IsConsistent taker st.store
    → IsConsistent taker (fill env taker m st).store
unfolding fill update_execution
fill-IsConsistent env taker m st shown h =
    let quantity = min st.remaining m.remaining_amount in
    let rest = m.remaining_amount - quantity in
    let backed = (h.mirrored m.order_id m shown).1 in
    let o = backed.0 in
    let x = maker_execution m quantity st.store.orders in
    let apart = taker_apart taker m st.store h shown in
    record {
      balanced =
          update-AllBalanced env.now m.order_id x st.store.orders o backed.1
            (execution_total m quantity st.store.orders o backed.1 backed.2 (omega arith)
              (h.balanced m.order_id o backed.1))
            h.balanced;
      mirrored =
          subst (Mirrors (after_update env.now m.order_id x st.store.orders))
            (sym (details_after taker m rest st.store.book shown))
            (update-Mirrors env.now m.order_id x st.store.orders o st.store.book.details
              (left_of m rest) backed.1 (left-Fits m quantity st.store.orders) h.mirrored);
      taker_row = find_other env.now m.order_id x st.store.orders taker.id apart ∙ h.taker_row;
      not_resting =
          ap (λ d. d taker.id) (details_after taker m rest st.store.book shown)
          ∙ rw apart h.not_resting;
    }

others-Shown :
    (env : MatchEnv) (taker : Order) (m : OrderbookEntry) (ms : List OrderbookEntry) (st : Progress)
    → Shown st.store.book m
    → All (λ e. (e.order_id == m.order_id) ≡ false) ms
    → All (Shown st.store.book) ms
    → All (Shown (fill env taker m st).store.book) ms
unfolding fill update_execution
others-Shown env taker m [] st here apart shown = tt
others-Shown env taker m (e ∷ ms) st here apart shown = (
  ap (λ d. d e.order_id)
        (details_after taker m (m.remaining_amount - min st.remaining m.remaining_amount)
          st.store.book here)
      ∙ rw apart.0 shown.0,
  others-Shown env taker m ms st here apart.1 shown.1,
)

pub match_loop-IsConsistent :
    (env : MatchEnv) (taker : Order) (ms : List OrderbookEntry) (st : Progress)
    → All (Shown st.store.book) ms
    → Distinct ms
    → IsConsistent taker st.store
    → IsConsistent taker (match_loop env taker ms st).store
unfolding match_loop
match_loop-IsConsistent env taker [] st shown distinct h = h
match_loop-IsConsistent env taker (m ∷ ms) st shown distinct h =
    let skipped = match_loop-IsConsistent env taker ms st shown.1 distinct.1 h in
    let matched =
      match_loop-IsConsistent env taker ms (fill env taker m st)
        (others-Shown env taker m ms st shown.0 distinct.0 shown.1) distinct.1
        (fill-IsConsistent env taker m st shown.0 h) in
    elim (Bool-cases (st.remaining == 0)) [
      | inl none_left ↦ rw none_left h
      | inr more ↦ elim (Bool-cases (m.user_id == taker.user_id)) [
        | inl own ↦ rw (more, own) skipped
        | inr other ↦ elim (Bool-cases (crosses taker.side taker.price m.price)) [
          | inl meets ↦ rw (more, other, meets) matched
          | inr apart ↦ rw (more, other, apart) h
        ]
      ]
    ]
