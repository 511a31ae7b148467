-- ===== src/Orders/Matching/Fills.antt =====
-- The trades of `executeMatch` (apps/orders/src/orders/matching-engine.service.ts) are those of
-- the allocation; their quantities, limits and users.
use ether_trade.Prelude.{
  ℕ, ◌+◌, ◌-◌, Text, true, false, List, [], ◌∷◌, ◌++◌, ◌==◌, min, ◌≡◌, sum_of, All, length, refl,
  sym, ap, ◌∙◌, arith, Bool-cases, inl, inr, append_assoc, append-nil, length-append,
}
use ether_trade.Orders.Types.{Order, OrderbookEntry, MatchedTrade}
use ether_trade.Orders.Orderbook.{Valkey}
use ether_trade.Orders.Matching.Loop.{
  MatchEnv, Store, Progress, crosses, trade_of, fill, match_loop,
}
use ether_trade.Orders.Matching.Engine.{start, opposing, conclude, execute_match}
use ether_trade.Orders.Matching.Spec.{
  is_own, candidates, Share, allocate, numbered, liquidity, traded, IsFair,
}

allocate-zero :
    (demand : ℕ) (ms : List OrderbookEntry) → (demand == 0) ≡ true → allocate demand ms ≡ []
unfolding allocate
allocate-zero demand [] none_left = refl
allocate-zero demand (m ∷ ms) none_left = rw none_left

allocate-nil : (demand : ℕ) → allocate demand [] ≡ []
unfolding allocate
allocate-nil demand = refl

none_to_allocate : (demand : ℕ) (taker : Order) → allocate demand (candidates taker []) ≡ []
unfolding candidates allocate
none_to_allocate demand taker = refl

-- One element more before what is counted from it.
append_counted {ℓ} :
    {A : Type ℓ} (xs : List A) (x : A) (f : ℕ → List A)
    → (xs ++ x ∷ []) ++ f (length (xs ++ x ∷ [])) ≡ xs ++ x ∷ f (length xs + 1)
append_counted {A} xs x f =
    let longer : length (xs ++ x ∷ []) ≡ length xs + 1 = length-append xs (x ∷ []) in
    rw longer (append_assoc xs (x ∷ []) (f (length xs + 1)))

-- What the loop adds to the trades.
abbrev added : MatchEnv → Order → List OrderbookEntry → Progress → List MatchedTrade
added env taker ms st =
    numbered env taker (length st.trades) (allocate st.remaining (candidates taker ms))

abbrev given_by : MatchEnv → Order → Progress → List OrderbookEntry → List MatchedTrade
given_by env taker st cs =
    st.trades ++ numbered env taker (length st.trades) (allocate st.remaining cs)

candidates_own :
    (taker : Order) (m : OrderbookEntry) (ms : List OrderbookEntry)
    → is_own taker m ≡ true
    → candidates taker (m ∷ ms) ≡ candidates taker ms
unfolding candidates
candidates_own taker m ms own = rw own refl

candidates_apart :
    (taker : Order) (m : OrderbookEntry) (ms : List OrderbookEntry)
    → is_own taker m ≡ false
    → crosses taker.side taker.price m.price ≡ false
    → candidates taker (m ∷ ms) ≡ []
unfolding candidates
candidates_apart taker m ms other apart = rw (other, apart) refl

-- Nothing is allocated, and nothing is added.
adds_nothing :
    (env : MatchEnv) (taker : Order) (ms : List OrderbookEntry) (st : Progress)
    → allocate st.remaining (candidates taker ms) ≡ []
    → st.trades ≡ st.trades ++ added env taker ms st
unfolding numbered
adds_nothing env taker ms st none_given = rw none_given (sym (append-nil st.trades))

-- One maker that crosses, before the rest.
fill-added :
    (env : MatchEnv) (taker : Order) (m : OrderbookEntry) (ms : List OrderbookEntry) (st : Progress)
    → (st.remaining == 0) ≡ false
    → is_own taker m ≡ false
    → crosses taker.side taker.price m.price ≡ true
    → (fill env taker m st).trades ++ added env taker ms (fill env taker m st)
      ≡ st.trades ++ added env taker (m ∷ ms) st
unfolding fill candidates allocate numbered
fill-added env taker m ms st more other meets =
    let quantity = min st.remaining m.remaining_amount in
    let t = trade_of (env.trade_id (length st.trades)) taker m quantity in
    let rest : ℕ → List MatchedTrade =
      λ n. numbered env taker n (allocate (st.remaining - quantity) (candidates taker ms)) in
    rw (other, meets, more) (append_counted st.trades t rest)

match_loop_trades :
    (env : MatchEnv) (taker : Order) (ms : List OrderbookEntry) (st : Progress)
    → (match_loop env taker ms st).trades ≡ st.trades ++ added env taker ms st
unfolding match_loop
match_loop_trades env taker [] st =
    adds_nothing env taker [] st (none_to_allocate st.remaining taker)
match_loop_trades env taker (m ∷ ms) st = elim (Bool-cases (st.remaining == 0)) [
  | inl none_left ↦ rw none_left (
      adds_nothing env taker (m ∷ ms) st
        (allocate-zero st.remaining (candidates taker (m ∷ ms)) none_left))
  | inr more ↦ elim (Bool-cases (is_own taker m)) [
    | inl own ↦
        rw (more, own)
          (match_loop_trades env taker ms st
            ∙ ap (given_by env taker st) (sym (candidates_own taker m ms own)))
    | inr other ↦ elim (Bool-cases (crosses taker.side taker.price m.price)) [
      | inl meets ↦
          rw (more, other, meets)
            (match_loop_trades env taker ms (fill env taker m st)
              ∙ fill-added env taker m ms st more other meets)
      | inr apart ↦
          rw (more, other, apart)
            (adds_nothing env taker (m ∷ ms) st
              (rw (candidates_apart taker m ms other apart) (allocate-nil st.remaining)))
    ]
  ]
]

allocate_total :
    (demand : ℕ) (ms : List OrderbookEntry)
    → sum_of (λ s. s.1) (allocate demand ms) ≡ min demand (liquidity ms)
unfolding allocate
allocate_total demand [] = omega arith
allocate_total demand (m ∷ ms) =
    ground (arith, allocate_total (demand - min demand m.remaining_amount) ms)

traded-numbered :
    (env : MatchEnv) (taker : Order) (n : ℕ) (shares : List Share)
    → traded (numbered env taker n shares) ≡ sum_of (λ s. s.1) shares
unfolding numbered trade_of
traded-numbered env taker n [] = refl
traded-numbered env taker n (s ∷ shares) = omega (arith, traded-numbered env taker (n + 1) shares)

-- Of every pair of user, price and entries: what is true of a trade with one candidate.
trade_of-IsFair :
    (id : Text) (taker : Order) (m : OrderbookEntry) (quantity : ℕ)
    → is_own taker m ≡ false
    → crosses taker.side taker.price m.price ≡ true
    → IsFair taker (trade_of id taker m quantity)
unfolding trade_of
trade_of-IsFair id taker m quantity other meets = record {
  of_taker = refl;
  other_user = λ e. ground (arith, e);
  within_limit = ground arith;
  set_aside = ground arith;
  affordable = ground arith;
}

abbrev Qualifies : Order → OrderbookEntry → Type 0
Qualifies taker m = (is_own taker m ≡ false) × (crosses taker.side taker.price m.price ≡ true)

candidates-Qualify :
    (taker : Order) (ms : List OrderbookEntry) → All (Qualifies taker) (candidates taker ms)
unfolding candidates
candidates-Qualify taker [] = tt
candidates-Qualify taker (m ∷ ms) = elim (Bool-cases (is_own taker m)) [
  | inl own ↦ rw own (candidates-Qualify taker ms)
  | inr other ↦ elim (Bool-cases (crosses taker.side taker.price m.price)) [
    | inl meets ↦ rw (other, meets) ((other, meets), candidates-Qualify taker ms)
    | inr apart ↦ rw (other, apart) tt
  ]
]

allocate-Qualify :
    (taker : Order) (demand : ℕ) (ms : List OrderbookEntry)
    → All (Qualifies taker) ms
    → All (λ s. Qualifies taker s.0) (allocate demand ms)
unfolding allocate
allocate-Qualify taker demand [] h = tt
allocate-Qualify taker demand (m ∷ ms) h = elim (Bool-cases (demand == 0)) [
  | inl none_left ↦ rw none_left tt
  | inr more ↦ rw more (h.0, allocate-Qualify taker (demand - min demand m.remaining_amount) ms h.1)
]

numbered-IsFair :
    (env : MatchEnv) (taker : Order) (n : ℕ) (shares : List Share)
    → All (λ s. Qualifies taker s.0) shares
    → All (IsFair taker) (numbered env taker n shares)
unfolding numbered
numbered-IsFair env taker n [] h = tt
numbered-IsFair env taker n (s ∷ shares) h = (
  trade_of-IsFair (env.trade_id n) taker s.0 s.1 h.0.0 h.0.1,
  numbered-IsFair env taker (n + 1) shares h.1,
)

-- The trades of a match are those of the allocation of the taker's remaining amount to the
-- candidates among the fifty best opposing orders, one per share and in its order, whatever the
-- rows of the orders are.
pub execute_match-allocates :
    (v : Valkey) (env : MatchEnv) (taker : Order) (s : Store)
    → (execute_match v env taker s).0.trades
      ≡ numbered env taker 0
          (allocate taker.remaining_amount (candidates taker (opposing v taker s)))
unfolding execute_match conclude
execute_match-allocates v env taker s =
    match_loop_trades env taker (opposing v taker s) (start taker s)

-- A match trades the lesser of what the taker wants and what the candidates offer: it stops
-- neither too early nor too late.
pub execute_match_quantity :
    (v : Valkey) (env : MatchEnv) (taker : Order) (s : Store)
    → traded (execute_match v env taker s).0.trades
      ≡ min taker.remaining_amount (liquidity (candidates taker (opposing v taker s)))
execute_match_quantity v env taker s =
    let ms = candidates taker (opposing v taker s) in
    rw (execute_match-allocates v env taker s) (
      traded-numbered env taker 0 (allocate taker.remaining_amount ms)
      ∙ allocate_total taker.remaining_amount ms)

-- Every trade of a match is the taker's, with another user, at a price within the taker's limit
-- and at most what the buyer has set aside per unit.
pub execute_match-IsFair :
    (v : Valkey) (env : MatchEnv) (taker : Order) (s : Store)
    → All (IsFair taker) (execute_match v env taker s).0.trades
execute_match-IsFair v env taker s =
    let ms = candidates taker (opposing v taker s) in
    let want = taker.remaining_amount in
    rw (execute_match-allocates v env taker s) (
      numbered-IsFair env taker 0 (allocate want ms)
        (allocate-Qualify taker want ms (candidates-Qualify taker (opposing v taker s))))
