-- ===== src/Solvency.antt =====
-- What an order has set aside pays for its trades: the hold of `createOrder` and the release of
-- `cancelOrder` (apps/orders/src/orders/orders.service.ts) against the amounts that the accounts
-- service settles (apps/accounts/src/consumers/utils/trades-settlement.util.ts).
use ether_trade.Prelude.{
  ℕ, ◌+◌, ◌-◌, ◌*◌, ◌≤◌, List, [], ◌∷◌, map, ltb, ◌≡◌, refl, sym, ap, ◌∙◌, arith, sum_of, All,
  subst, Bool-cases, inl, inr,
}
use ether_trade.Decimal.{scale, RoundsDown, RoundsHalfUp}
use ether_trade.Orders.Types.{buy, Order, MatchedTrade}
use ether_trade.Orders.Orderbook.{Valkey}
use ether_trade.Orders.Matching.Loop.{Store, MatchEnv}
use ether_trade.Orders.Matching.Engine.{execute_match}
use ether_trade.Orders.Matching.Spec.{IsFair, traded}
use ether_trade.Orders.Matching.Fills.{execute_match_quantity, execute_match-IsFair}
use ether_trade.Orders.Service.Types.{held_amount}
use ether_trade.Accounts.Settlement.Calculation.{Trade, calculate_settlement_amounts}

-- What the settlement of a trade takes from the buyer's locked balance.
abbrev pub taken_from_buyer : (ℕ → ℕ) → Trade → ℕ
taken_from_buyer down t =
    let amounts = calculate_settlement_amounts down t in amounts.quote_cost + amounts.surplus_refund

-- A trade of a buy order with a limit.
abbrev pub Buys : ℕ → Trade → Type 0
Buys limit t = (t.buyer_limit_price ≡ limit) × (t.price ≤ limit)

-- A price and what the limit exceeds it by.
limit_split :
    (limit price quantity : ℕ)
    → price ≤ limit
    → price * quantity + (limit - price) * quantity ≡ limit * quantity
limit_split limit price quantity within =
    let d = limit - price in
    let parts : price + d ≡ limit = omega arith in
    let spread : price * quantity + d * quantity ≡ (price + d) * quantity = omega arith in
    spread ∙ ap (λ n. n * quantity) parts

taken_within :
    (down : ℕ → ℕ) (limit : ℕ) (t : Trade)
    → RoundsDown down
    → Buys limit t
    → taken_from_buyer down t * scale ≤ limit * t.quantity
unfolding calculate_settlement_amounts
taken_within down limit t rounds h =
    let cost = rounds.down_le (t.price * t.quantity) in
    let surplus = rounds.down_le ((limit - t.price) * t.quantity) in
    let parts = limit_split limit t.price t.quantity h.1 in
    elim (Bool-cases (ltb t.price limit)) [
      | inl better ↦ rw (h.0, better) (omega arith)
      | inr same ↦ rw (h.0, same) (omega arith)
    ]

All-taken_within :
    (down : ℕ → ℕ) (limit : ℕ) (ts : List Trade)
    → RoundsDown down
    → All (Buys limit) ts
    → sum_of (taken_from_buyer down) ts * scale ≤ limit * sum_of (λ t. t.quantity) ts
All-taken_within down limit [] rounds h = omega arith
All-taken_within down limit (t ∷ ts) rounds h =
    let one = taken_within down limit t rounds h.0 in
    let others = All-taken_within down limit ts rounds h.1 in omega arith

-- A buy order is solvent: what its trades take from the locked balance, each settled with amounts
-- rounded down, and what a cancellation releases for the rest, rounded half up, do not exceed what
-- was locked for the whole amount, rounded half up, when every trade is within the order's limit
-- and the traded quantities and the rest make up the amount.
pub buy_order_solvent :
    (down half_up : ℕ → ℕ) (limit amount rest : ℕ) (ts : List Trade)
    → RoundsDown down
    → RoundsHalfUp half_up
    → All (Buys limit) ts
    → sum_of (λ t. t.quantity) ts + rest ≡ amount
    → sum_of (taken_from_buyer down) ts + held_amount half_up buy limit rest
      ≤ held_amount half_up buy limit amount
buy_order_solvent down half_up limit amount rest ts rounds rounds_up h total =
    let traded = sum_of (λ (t : Trade). t.quantity) ts in
    let taken = All-taken_within down limit ts rounds h in
    let whole : limit * amount ≡ limit * traded + limit * rest =
      ap (λ n. limit * n) (sym total) ∙ omega arith in
    let released = rounds_up.half_le (limit * rest) in
    let held = rounds_up.half_near (limit * amount) in omega arith

-- What the accounts service reads of the event of a trade.
abbrev pub settled_trade : MatchedTrade → Trade
settled_trade t = record {
  trade_id = t.trade_id;
  buyer_user_id = t.buyer_user_id;
  seller_user_id = t.seller_user_id;
  symbol = t.symbol;
  price = t.price;
  quantity = t.quantity;
  buyer_limit_price = t.buyer_limit_price;
}

fair-Buys :
    (taker : Order) (ts : List MatchedTrade)
    → taker.side ≡ buy
    → All (IsFair taker) ts
    → All (Buys taker.price) (map settled_trade ts)
fair-Buys taker [] buying h = tt
fair-Buys taker (t ∷ ts) buying h =
    let limit_is : t.buyer_limit_price ≡ taker.price = h.0.set_aside ∙ rw buying refl in
    ((limit_is, subst (λ p. t.price ≤ p) limit_is h.0.affordable), fair-Buys taker ts buying h.1)

settled_quantity :
    (ts : List MatchedTrade) → sum_of (λ t. t.quantity) (map settled_trade ts) ≡ traded ts
settled_quantity [] = refl
settled_quantity (t ∷ ts) = ap (λ n. t.quantity + n) (settled_quantity ts)

-- The trades of a match of a buy order, with the release of what the match leaves of it, cost no
-- more than was locked for what it had to fill, when the settlement rounds down and the hold half
-- up.
pub execute_match_solvent :
    (down half_up : ℕ → ℕ) (v : Valkey) (env : MatchEnv) (taker : Order) (s : Store)
    → RoundsDown down
    → RoundsHalfUp half_up
    → taker.side ≡ buy
    → sum_of (taken_from_buyer down) (map settled_trade (execute_match v env taker s).0.trades)
        + held_amount half_up buy taker.price
            (taker.remaining_amount - traded (execute_match v env taker s).0.trades)
      ≤ held_amount half_up buy taker.price taker.remaining_amount
execute_match_solvent down half_up v env taker s rounds rounds_up buying =
    let ts = (execute_match v env taker s).0.trades in
    let count = settled_quantity ts in
    let bounded = execute_match_quantity v env taker s in
    buy_order_solvent down half_up taker.price taker.remaining_amount
      (taker.remaining_amount - traded ts) (map settled_trade ts) rounds rounds_up
      (fair-Buys taker ts buying (execute_match-IsFair v env taker s)) (omega arith)
