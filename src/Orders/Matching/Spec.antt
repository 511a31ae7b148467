-- ===== src/Orders/Matching/Spec.antt =====
-- What a match promises, apart from rows and book: which makers qualify, and what each one gives.
-- About `executeMatch` of apps/orders/src/orders/matching-engine.service.ts.
use ether_trade.Prelude.{
  ℕ, ◌+◌, ◌-◌, ◌≤◌, Bool, List, [], ◌∷◌, ◌==◌, min, if◌then◌else◌, ◌≡◌, ◌≢◌, sum_of,
}
use ether_trade.Orders.Types.{OrderSide, buy, sell, Order, OrderbookEntry, MatchedTrade}
use ether_trade.Orders.Matching.Loop.{MatchEnv, crosses, trade_of}

abbrev pub is_own : Order → OrderbookEntry → Bool
is_own taker maker = maker.user_id == taker.user_id

-- Of the opposing entries those of other users, up to the first whose price does not cross.
unfoldable pub candidates : Order → List OrderbookEntry → List OrderbookEntry
candidates taker [] = []
candidates taker (m ∷ ms) =
    let rest = candidates taker ms in
    if is_own taker m then rest else if crosses taker.side taker.price m.price then m ∷ rest else []

-- A maker and the quantity that it gives.
abbrev pub Share : Type 0
Share = OrderbookEntry × ℕ

-- Each candidate in turn gives what it has, until the demand is met.
unfoldable pub allocate : ℕ → List OrderbookEntry → List Share
allocate demand [] = []
allocate demand (m ∷ ms) =
    let quantity = min demand m.remaining_amount in
    let rest = allocate (demand - quantity) ms in if demand == 0 then [] else (m, quantity) ∷ rest

-- The trades of the shares, the first of which is the trade number `n` of the match.
unfoldable pub numbered : MatchEnv → Order → ℕ → List Share → List MatchedTrade
numbered env taker n [] = []
numbered env taker n (s ∷ shares) =
    trade_of (env.trade_id n) taker s.0 s.1 ∷ numbered env taker (n + 1) shares

-- The liquidity of some entries.
abbrev pub liquidity : List OrderbookEntry → ℕ
liquidity = sum_of (λ m. m.remaining_amount)

abbrev pub traded : List MatchedTrade → ℕ
traded = sum_of (λ t. t.quantity)

-- At no worse than a price, on the side of the taker.
abbrev pub Within : OrderSide → ℕ → ℕ → Type 0
Within buy limit price = price ≤ limit
Within sell limit price = limit ≤ price

-- What a buyer has set aside per unit: a taker's own limit, a maker's own price.
abbrev pub reserved : Order → ℕ → ℕ
reserved taker price = elim taker.side [ buy ↦ taker.price | sell ↦ price ]

pub record IsFair (taker : Order) (t : MatchedTrade) : Type 0 where
  pub of_taker : t.taker_order_id ≡ taker.id
  pub other_user : t.buyer_user_id ≢ t.seller_user_id
  pub within_limit : Within taker.side taker.price t.price
  pub set_aside : t.buyer_limit_price ≡ reserved taker t.price
  pub affordable : t.price ≤ t.buyer_limit_price
