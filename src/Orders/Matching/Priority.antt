-- ===== src/Orders/Matching/Priority.antt =====
-- Price priority in `executeMatch` of apps/orders/src/orders/matching-engine.service.ts, when the
-- book gives the opposing orders best price first.
use ether_trade.Prelude.{
  ℕ, Bool, false, not, ◌&&◌, List, [], ◌∷◌, min, ◌≡◌, refl, sym, ap, ◌∙◌, arith, All, Bool-cases,
  inl, inr, select_all,
}
use ether_trade.Orders.Types.{OrderSide, buy, sell, Order, OrderbookEntry}
use ether_trade.Orders.Orderbook.{Valkey}
use ether_trade.Orders.Matching.Loop.{MatchEnv, Store, crosses}
use ether_trade.Orders.Matching.Engine.{opposing, execute_match}
use ether_trade.Orders.Matching.Spec.{is_own, candidates, liquidity, traded, Within}
use ether_trade.Orders.Matching.Fills.{execute_match_quantity}

-- No entry has a better price for the taker than one before it.
abbrev pub BestFirst : OrderSide → List OrderbookEntry → Type 0
BestFirst side [] = Unit
BestFirst side (m ∷ ms) = All (λ n. Within side n.price m.price) ms × BestFirst side ms

-- Of another user, and at a price that crosses.
abbrev pub eligible : Order → OrderbookEntry → Bool
eligible taker m = not (is_own taker m) && crosses taker.side taker.price m.price

-- Behind a price that does not cross, none does.
apart_after :
    (side : OrderSide) (limit p q : ℕ)
    → Within side q p
    → crosses side limit p ≡ false
    → crosses side limit q ≡ false
apart_after buy limit p q worse apart = ground arith
apart_after sell limit p q worse apart = ground arith

none_eligible :
    (taker : Order) (p : ℕ) (ms : List OrderbookEntry)
    → crosses taker.side taker.price p ≡ false
    → All (λ n. Within taker.side n.price p) ms
    → select_all (eligible taker) ms ≡ []
unfolding select_all
none_eligible taker p [] apart worse = refl
none_eligible taker p (m ∷ ms) apart worse =
    let here = apart_after taker.side taker.price p m.price worse.0 apart in
    let later = none_eligible taker p ms apart worse.1 in
    elim (Bool-cases (is_own taker m)) [
      | inl own ↦ rw (own, later) refl
      | inr other ↦ rw (other, here, later) refl
    ]

candidates-eligible :
    (taker : Order) (ms : List OrderbookEntry)
    → BestFirst taker.side ms
    → candidates taker ms ≡ select_all (eligible taker) ms
unfolding candidates select_all
candidates-eligible taker [] sorted = refl
candidates-eligible taker (m ∷ ms) sorted =
    let later = candidates-eligible taker ms sorted.1 in
    elim (Bool-cases (is_own taker m)) [
      | inl own ↦ rw own later
      | inr other ↦ elim (Bool-cases (crosses taker.side taker.price m.price)) [
        | inl meets ↦ rw (other, meets) (ap (λ es. m ∷ es) later)
        | inr apart ↦ rw (other, apart) (sym (none_eligible taker m.price ms apart sorted.0))
      ]
    ]

-- When the opposing orders come best price first, a match trades the lesser of what the taker wants
-- and what all those orders of other users offer that cross: no order that could have been matched
-- is left because of one before it.
pub execute_match-eligible :
    (v : Valkey) (env : MatchEnv) (taker : Order) (s : Store)
    → BestFirst taker.side (opposing v taker s)
    → traded (execute_match v env taker s).0.trades
      ≡ min taker.remaining_amount (liquidity (select_all (eligible taker) (opposing v taker s)))
execute_match-eligible v env taker s sorted =
    execute_match_quantity v env taker s
    ∙ ap (λ cs. min taker.remaining_amount (liquidity cs))
        (candidates-eligible taker (opposing v taker s) sorted)
