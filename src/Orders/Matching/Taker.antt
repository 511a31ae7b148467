-- ===== src/Orders/Matching/Taker.antt =====
-- What `executeMatch` of apps/orders/src/orders/matching-engine.service.ts does of the taker after
-- the loop: its row, its status, and its place in the book.
use ether_trade.Prelude.{
  ℕ, ◌+◌, ◌-◌, Option, none, some, List, [], ◌∷◌, ◌==◌, min, if◌then◌else◌, ◌≡◌, refl, ap, ◌∙◌,
  arith, ◌++◌, length, sum_of-append, All, Bool-cases, Option-cases, inl, inr,
}
use ether_trade.Orders.Types.{Order, OrderbookEntry, MatchedTrade}
use ether_trade.Orders.Repository.{find_by_id, Execution, executed, update_execution}
use ether_trade.Orders.Orderbook.{
  Valkey, Book, add_order, get_best_opposing_orders, collect, get_order_details, put_details,
}
use ether_trade.Orders.Matching.Loop.{MatchEnv, Store, Progress, trade_of, fill, match_loop}
use ether_trade.Orders.Matching.Engine.{
  start, opposing, conclude, execute_match, taker_status, resting_entry,
}
use ether_trade.Orders.Matching.Spec.{traded}
use ether_trade.Orders.Matching.Rows.{
  AllBalanced, Mirrors, Fits, after_update, update-AllBalanced, update-Mirrors, Mirrors-absent,
}
use ether_trade.Orders.Matching.Consistency.{Shown, Distinct, IsConsistent, match_loop-IsConsistent}

-- What the loop has filled and what remains are what it had to fill.
match_loop_total :
    (env : MatchEnv) (taker : Order) (ms : List OrderbookEntry) (st : Progress)
    → (match_loop env taker ms st).filled_so_far + (match_loop env taker ms st).remaining
      ≡ st.filled_so_far + st.remaining
unfolding match_loop fill
match_loop_total env taker [] st = refl
match_loop_total env taker (m ∷ ms) st =
    let skipped = match_loop_total env taker ms st in
    let matched = match_loop_total env taker ms (fill env taker m st) in
    ground (arith, skipped, matched)

collect-Shown :
    (rows : List Order) (b : Book) (ids : List ℕ)
    → Mirrors rows b.details
    → All (Shown b) (collect ids b)
unfolding collect get_order_details
collect-Shown rows b [] h = tt
collect-Shown rows b (id ∷ ids) h = elim (Option-cases (b.details id)) [
  | inl absent ↦ rw (absent, collect) (collect-Shown rows b ids h)
  | inr found ↦
      rw (found.1, collect)
        (ap b.details (h id found.0 found.1).0 ∙ found.1, collect-Shown rows b ids h)
]

opposing-Shown :
    (v : Valkey) (taker : Order) (s : Store)
    → Mirrors s.orders s.book.details
    → All (Shown s.book) (opposing v taker s)
unfolding get_best_opposing_orders
opposing-Shown v taker s h = collect-Shown s.orders s.book _ h

abbrev taker_execution : Progress → Execution
taker_execution st = record {
  filled_amount = st.filled_so_far;
  remaining_amount = st.remaining;
  status = taker_status st.remaining st.filled_so_far;
}

abbrev pub Agrees : Store → Type 0
Agrees s = AllBalanced s.orders × Mirrors s.orders s.book.details

-- The book after the taker's row has been updated to `x`.
concluded-Mirrors :
    (v : Valkey) (now : ℕ) (taker : Order) (s : Store) (x : Execution)
    → IsConsistent taker s
    → Mirrors
        (after_update now taker.id x s.orders)
        (if x.remaining_amount == 0
          then s.book
          else add_order v (resting_entry taker x.remaining_amount) s.book).details
unfolding add_order
concluded-Mirrors v now taker s x h =
    let mirrors : (o : Option OrderbookEntry)
        → Fits taker.id x o
        → Mirrors (after_update now taker.id x s.orders) (put_details taker.id o s.book.details) =
      λ o fits.
        update-Mirrors now taker.id x s.orders taker s.book.details o h.taker_row fits h.mirrored in
    elim (Bool-cases (x.remaining_amount == 0)) [
      | inl all_filled ↦ rw all_filled (
          Mirrors-absent taker.id (after_update now taker.id x s.orders) s.book.details
            h.not_resting (mirrors none tt))
      | inr more ↦ rw more (mirrors (some (resting_entry taker x.remaining_amount)) (refl, refl))
    ]

conclude-Agrees :
    (v : Valkey) (env : MatchEnv) (taker : Order) (st : Progress)
    → st.filled_so_far + st.remaining ≡ taker.amount
    → IsConsistent taker st.store
    → Agrees (conclude v env taker st).1
unfolding conclude update_execution
conclude-Agrees v env taker st total h =
    let x = taker_execution st in
    (
      update-AllBalanced env.now taker.id x st.store.orders taker h.taker_row total h.balanced,
      concluded-Mirrors v env.now taker st.store x h,
    )

-- A match keeps every row of an order balanced (what is filled and what remains add up to the
-- amount) and the book in agreement with the rows: an entry's remaining amount is that of its row.
-- It does so from a store with both, in which the taker is a row of which the book has nothing,
-- when no order is listed twice among the opposing ones.
pub execute_match-Agrees :
    (v : Valkey) (env : MatchEnv) (taker : Order) (s : Store)
    → IsConsistent taker s
    → Distinct (opposing v taker s)
    → Agrees (execute_match v env taker s).1
unfolding execute_match
execute_match-Agrees v env taker s h distinct =
    let ms = opposing v taker s in
    conclude-Agrees v env taker (match_loop env taker ms (start taker s))
      (match_loop_total env taker ms (start taker s) ∙ h.balanced taker.id taker h.taker_row)
      (match_loop-IsConsistent env taker ms (start taker s) (opposing-Shown v taker s h.mirrored)
        distinct h)

-- What the loop fills it also trades.
match_loop-traded :
    (env : MatchEnv) (taker : Order) (ms : List OrderbookEntry) (st : Progress)
    → (match_loop env taker ms st).filled_so_far + traded st.trades
      ≡ st.filled_so_far + traded (match_loop env taker ms st).trades
unfolding match_loop fill trade_of
match_loop-traded env taker [] st = refl
match_loop-traded env taker (m ∷ ms) st =
    let quantity = min st.remaining m.remaining_amount in
    let t = trade_of (env.trade_id (length st.trades)) taker m quantity in
    let skipped = match_loop-traded env taker ms st in
    let matched = match_loop-traded env taker ms (fill env taker m st) in
    let one_more : traded (st.trades ++ t ∷ []) ≡ traded st.trades + (quantity + 0) =
      sum_of-append (λ d. d.quantity) st.trades (t ∷ []) in
    ground (arith, skipped, matched, one_more)

concluded_taker :
    (v : Valkey) (env : MatchEnv) (taker : Order) (st : Progress) (x : Execution)
    → taker_execution st ≡ x
    → find_by_id taker.id st.store.orders ≡ some taker
    → (conclude v env taker st).0.taker_order ≡ executed env.now x taker
unfolding conclude update_execution find_by_id
concluded_taker v env taker st x is row = rw row (ap (λ y. executed env.now y taker) is)

-- What the trades of a match leave of the taker.
abbrev pub after_trades : Order → List MatchedTrade → Execution
after_trades taker ts = record {
  filled_amount = taker.filled_amount + traded ts;
  remaining_amount = taker.remaining_amount - traded ts;
  status = taker_status (taker.remaining_amount - traded ts) (taker.filled_amount + traded ts);
}

-- A match returns the taker with what its trades add to the filled amount and take from the
-- remaining one, and with the status that follows: filled when nothing remains, else partially
-- filled when something is filled, else open. It does so from a store in which the rows and the
-- book agree and the taker is a row of which the book has nothing, when no order is listed twice
-- among the opposing ones.
pub execute_match_taker :
    (v : Valkey) (env : MatchEnv) (taker : Order) (s : Store)
    → IsConsistent taker s
    → Distinct (opposing v taker s)
    → (execute_match v env taker s).0.taker_order
      ≡ executed env.now (after_trades taker (execute_match v env taker s).0.trades) taker
unfolding execute_match conclude
execute_match_taker v env taker s h distinct =
    let ms = opposing v taker s in
    let st = match_loop env taker ms (start taker s) in
    let total : st.filled_so_far + st.remaining ≡ taker.filled_amount + taker.remaining_amount =
      match_loop_total env taker ms (start taker s) in
    let grown : st.filled_so_far + 0 ≡ taker.filled_amount + traded st.trades =
      match_loop-traded env taker ms (start taker s) in
    let filled_is : st.filled_so_far ≡ taker.filled_amount + traded st.trades = omega arith in
    let rest_is : st.remaining ≡ taker.remaining_amount - traded st.trades = omega arith in
    let kept =
      match_loop-IsConsistent env taker ms (start taker s) (opposing-Shown v taker s h.mirrored)
        distinct h in
    concluded_taker v env taker st (after_trades taker st.trades) (rw (filled_is, rest_is))
      kept.taker_row
