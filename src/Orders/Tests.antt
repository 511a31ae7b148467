-- ===== src/Orders/Tests.antt =====
-- The theorems of the matching engine at a match of one maker
-- (apps/orders/src/orders/matching-engine.service.ts).
use ether_trade.Prelude.{
  ℕ, ◌≡◌, refl, sym, ap, subst, Bool, true, false, none, some, [], ◌∷◌, map, text, text_eq,
  if◌then◌else◌, ◌==◌, ==_iff, Bool-cases, inl, inr, All, select_first, select_first-All,
}
use ether_trade.Prelude.{select_all, take, min}
use ether_trade.Orders.Matching.Priority.{BestFirst, eligible, execute_match-eligible}
use ether_trade.Orders.Orderbook.{collect, levels_from, aggregate_levels, level_total}
use ether_trade.Orders.Orderbook.Levels.{
  DistinctPrices, amount_at, count_at, orders_at, aggregate_levels_lem,
}
use ether_trade.Orders.Types.{buy, sell, limit, open_status, Order, OrderbookEntry}
use ether_trade.Orders.Repository.{find_by_id, has_id, executed}
use ether_trade.Orders.Orderbook.{Book, Valkey, put_details, get_best_opposing_orders}
use ether_trade.Orders.Matching.Loop.{Store, MatchEnv}
use ether_trade.Orders.Matching.Engine.{opposing, execute_match}
use ether_trade.Orders.Matching.Spec.{liquidity, candidates, allocate, numbered, traded, IsFair}
use ether_trade.Orders.Matching.Fills.{
  execute_match-allocates, execute_match_quantity, execute_match-IsFair,
}
use ether_trade.Orders.Matching.Rows.{IsBalanced, Backed}
use ether_trade.Orders.Matching.Consistency.{Distinct, IsConsistent}
use ether_trade.Orders.Matching.Taker.{
  Agrees, after_trades, execute_match-Agrees, execute_match_taker,
}

abbrev pub sample_order : ℕ → ℕ → Bool → ℕ → ℕ → Order
sample_order id user buying price amount = record {
  id = id;
  user_id = user;
  pair = text "BTC_USDT";
  side = if buying then buy else sell;
  type = limit;
  price = price;
  amount = amount;
  filled_amount = 0;
  remaining_amount = amount;
  status = open_status;
  idempotency_key = text "k";
  created_at = 1000;
  updated_at = 1000;
}

-- A maker sells 2 at 9, and a taker buys 3 at 10.
abbrev pub sample_taker : Order
sample_taker = sample_order 5 7 true 10 3

abbrev sample_maker : OrderbookEntry
sample_maker = record {
  order_id = 1;
  user_id = 8;
  pair = text "BTC_USDT";
  side = sell;
  type = limit;
  price = 9;
  amount = 2;
  remaining_amount = 2;
  created_at = 1;
}

abbrev pub sample_valkey : Valkey
sample_valkey = record { ranked = map (λ m. m.0); to_number = λ p. p }

abbrev pub sample_book : Book
sample_book = record {
  sorted_sets = λ key. if text_eq key (text "orderbook:sell:BTC_USDT") then (1, 9) ∷ [] else [];
  details = put_details 1 (some sample_maker) (λ k. none);
  sequences = λ key. 0;
}

abbrev pub sample_store : Store
sample_store = record {
  orders = sample_order 1 8 false 9 2 ∷ sample_taker ∷ [];
  book = sample_book;
}

abbrev pub sample_env : MatchEnv
sample_env = record { now = 2000; trade_id = λ n. n ∷ [] }

sample_opposing : opposing sample_valkey sample_taker sample_store ≡ sample_maker ∷ []
unfolding get_best_opposing_orders text_eq
sample_opposing = refl

sample-IsConsistent : IsConsistent sample_taker sample_store
unfolding find_by_id select_first
sample-IsConsistent = record {
  balanced = λ k o found.
      select_first-All IsBalanced (has_id k) sample_store.orders o (refl, (refl, tt)) found;
  mirrored = λ k e shown. elim (Bool-cases (k == 1)) [
    | inl same ↦
        let k_is : k ≡ 1 = (==_iff k 1).0 same in
        let is : sample_maker ≡ e = cc (rw same at shown) in
        subst (λ (x : OrderbookEntry). (x.order_id ≡ k) × Backed sample_store.orders k x) is
          (
            sym k_is,
            (sample_order 1 8 false 9 2, ap (λ j. find_by_id j sample_store.orders) k_is, refl),
          )
    | inr other ↦ let bad : none ≡ some e = rw other at shown in cc
  ];
  taker_row = refl;
  not_resting = refl;
}

sample-Distinct : Distinct (opposing sample_valkey sample_taker sample_store)
unfolding get_best_opposing_orders text_eq
sample-Distinct = (tt, tt)

execute_match-allocates_example :
    (execute_match sample_valkey sample_env sample_taker sample_store).0.trades
    ≡ numbered sample_env sample_taker 0
        (allocate 3 (candidates sample_taker (opposing sample_valkey sample_taker sample_store)))
execute_match-allocates_example =
    execute_match-allocates sample_valkey sample_env sample_taker sample_store

execute_match_quantity_example :
    traded (execute_match sample_valkey sample_env sample_taker sample_store).0.trades ≡ 2
unfolding candidates get_best_opposing_orders text_eq
execute_match_quantity_example =
    execute_match_quantity sample_valkey sample_env sample_taker sample_store

execute_match-IsFair_example :
    All
      (IsFair sample_taker)
      (execute_match sample_valkey sample_env sample_taker sample_store).0.trades
execute_match-IsFair_example =
    execute_match-IsFair sample_valkey sample_env sample_taker sample_store

execute_match-Agrees_example :
    Agrees (execute_match sample_valkey sample_env sample_taker sample_store).1
execute_match-Agrees_example =
    execute_match-Agrees sample_valkey sample_env sample_taker sample_store sample-IsConsistent
      sample-Distinct

execute_match_taker_example :
    (execute_match sample_valkey sample_env sample_taker sample_store).0.taker_order
    ≡ executed 2000
        (after_trades sample_taker
          (execute_match sample_valkey sample_env sample_taker sample_store).0.trades)
        sample_taker
execute_match_taker_example =
    execute_match_taker sample_valkey sample_env sample_taker sample_store sample-IsConsistent
      sample-Distinct

sample-BestFirst : BestFirst buy (opposing sample_valkey sample_taker sample_store)
unfolding get_best_opposing_orders text_eq
sample-BestFirst = (tt, tt)

execute_match-eligible_example :
    traded (execute_match sample_valkey sample_env sample_taker sample_store).0.trades
    ≡ min 3 (
        liquidity
          (select_all (eligible sample_taker) (opposing sample_valkey sample_taker sample_store)))
execute_match-eligible_example =
    execute_match-eligible sample_valkey sample_env sample_taker sample_store sample-BestFirst

aggregate_levels_lem_example :
    let es = collect (1 ∷ 1 ∷ []) sample_book in
    let ls = levels_from [] es in
    (aggregate_levels (1 ∷ 1 ∷ []) 1 sample_book ≡ take 1 ls)
    × (DistinctPrices ls × ((amount_at 9 ls ≡ level_total 9 es) × (count_at 9 ls ≡ orders_at 9 es)))
aggregate_levels_lem_example = aggregate_levels_lem (1 ∷ 1 ∷ []) 0 9 sample_book
