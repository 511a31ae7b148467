-- ===== src/Orders/Orderbook/Levels.antt =====
-- The price levels that `getOrderBook` of apps/orders/src/orders/orderbook.service.ts aggregates.
use ether_trade.Prelude.{
  ℕ, zero, suc, ◌+◌, true, false, List, [], ◌∷◌, ◌==◌, leb, if◌then◌else◌, ◌≡◌, refl, ap, arith,
  All, sum_of, take, Bool-cases, inl, inr,
}
use ether_trade.Orders.Types.{OrderbookEntry}
use ether_trade.Orders.Orderbook.{
  Book, OrderBookLevel, collect, level_total, add_to_levels, levels_from, copy_levels,
  aggregate_levels,
}

-- The amount that some levels show at a price.
abbrev pub amount_at : ℕ → List OrderBookLevel → ℕ
amount_at p = sum_of (λ l. if l.price == p then l.amount else 0)

abbrev pub count_at : ℕ → List OrderBookLevel → ℕ
count_at p = sum_of (λ l. if l.price == p then l.order_count else 0)

abbrev pub orders_at : ℕ → List OrderbookEntry → ℕ
orders_at p = sum_of (λ e. if e.price == p then 1 else 0)

-- No two levels have one price.
abbrev pub DistinctPrices : List OrderBookLevel → Type 0
DistinctPrices [] = Unit
DistinctPrices (l ∷ ls) = All (λ k. (k.price == l.price) ≡ false) ls × DistinctPrices ls

add-amount_at :
    (p : ℕ) (e : OrderbookEntry) (ls : List OrderBookLevel)
    → amount_at p (add_to_levels e ls)
      ≡ amount_at p ls + (if e.price == p then e.remaining_amount else 0)
unfolding add_to_levels
add-amount_at p e [] = omega arith
add-amount_at p e (l ∷ ls) = ground (arith, add-amount_at p e ls)

add-count_at :
    (p : ℕ) (e : OrderbookEntry) (ls : List OrderBookLevel)
    → count_at p (add_to_levels e ls) ≡ count_at p ls + (if e.price == p then 1 else 0)
unfolding add_to_levels
add-count_at p e [] = omega arith
add-count_at p e (l ∷ ls) = ground (arith, add-count_at p e ls)

levels_from_totals :
    (p : ℕ) (ls : List OrderBookLevel) (es : List OrderbookEntry)
    → (amount_at p (levels_from ls es) ≡ amount_at p ls + level_total p es)
      × (count_at p (levels_from ls es) ≡ count_at p ls + orders_at p es)
unfolding levels_from level_total
levels_from_totals p ls [] = (omega arith, omega arith)
levels_from_totals p ls (e ∷ es) =
    let later = levels_from_totals p (add_to_levels e ls) es in
    let amount = add-amount_at p e ls in
    let count = add-count_at p e ls in (omega arith, omega arith)

-- An entry opens no level at a price at which there is none and that is not its own.
add_apart :
    (p : ℕ) (e : OrderbookEntry) (ls : List OrderBookLevel)
    → (e.price == p) ≡ false
    → All (λ k. (k.price == p) ≡ false) ls
    → All (λ k. (k.price == p) ≡ false) (add_to_levels e ls)
unfolding add_to_levels
add_apart p e [] other h = (other, tt)
add_apart p e (l ∷ ls) other h = elim (Bool-cases (l.price == e.price)) [
  | inl same ↦ rw same (h.0, h.1)
  | inr apart ↦ rw apart (h.0, add_apart p e ls other h.1)
]

add-DistinctPrices :
    (e : OrderbookEntry) (ls : List OrderBookLevel)
    → DistinctPrices ls
    → DistinctPrices (add_to_levels e ls)
unfolding add_to_levels
add-DistinctPrices e [] h = (tt, tt)
add-DistinctPrices e (l ∷ ls) h = elim (Bool-cases (l.price == e.price)) [
  | inl same ↦ rw same (h.0, h.1)
  | inr apart ↦
      let other : (e.price == l.price) ≡ false = ground (arith, apart) in
      rw apart (add_apart l.price e ls other h.0, add-DistinctPrices e ls h.1)
]

levels_from-DistinctPrices :
    (ls : List OrderBookLevel) (es : List OrderbookEntry)
    → DistinctPrices ls
    → DistinctPrices (levels_from ls es)
unfolding levels_from
levels_from-DistinctPrices ls [] h = h
levels_from-DistinctPrices ls (e ∷ es) h =
    levels_from-DistinctPrices (add_to_levels e ls) es (add-DistinctPrices e ls h)

copy_levels_lem :
    (limit pushed n : ℕ) (ls : List OrderBookLevel)
    → n + 1 + pushed ≡ limit
    → copy_levels limit pushed ls ≡ take (suc n) ls
unfolding copy_levels
copy_levels_lem limit pushed n [] h = refl
copy_levels_lem limit pushed zero (l ∷ ls) h =
    let last : leb limit (pushed + 1) ≡ true = ground arith in rw last refl
copy_levels_lem limit pushed (suc n) (l ∷ ls) h =
    let more : leb limit (pushed + 1) ≡ false = ground arith in
    rw more (ap (λ ks. l ∷ ks) (copy_levels_lem limit (pushed + 1) n ls (omega arith)))

-- With a depth of at least one, `aggregateLevels` gives the first levels of one list, in which no
-- price stands twice, and each price has the amount and the number of the orders at that price.
pub aggregate_levels_lem :
    (ids : List ℕ) (depth p : ℕ) (b : Book)
    → let es = collect ids b in
      let ls = levels_from [] es in
      (aggregate_levels ids (suc depth) b ≡ take (suc depth) ls)
      × (DistinctPrices ls
          × ((amount_at p ls ≡ level_total p es) × (count_at p ls ≡ orders_at p es)))
unfolding aggregate_levels
aggregate_levels_lem ids depth p b =
    let es = collect ids b in
    let totals = levels_from_totals p [] es in
    (
      copy_levels_lem (suc depth) 0 depth (levels_from [] es) (omega arith),
      (levels_from-DistinctPrices [] es tt, (omega arith, omega arith)),
    )
