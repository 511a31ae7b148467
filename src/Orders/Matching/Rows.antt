-- ===== src/Orders/Matching/Rows.antt =====
-- The rows of the orders and the details in the book, through one update of a row: `updateExecution`
-- of apps/orders/src/orders/orders.repository.ts and the writes of orderbook.service.ts beside it.
use ether_trade.Prelude.{
  ℕ, ◌+◌, false, Option, none, some, List, [], ◌∷◌, ◌==◌, ◌≡◌, refl, sym, ap, ◌∙◌, subst, arith,
  Bool-cases, inl, inr, ==_iff, select_first, update_where,
}
use ether_trade.Orders.Types.{Order, OrderbookEntry}
use ether_trade.Orders.Repository.{find_by_id, has_id, Execution, executed}
use ether_trade.Orders.Orderbook.{put_details}

-- What is filled and what remains of a row is its amount.
abbrev pub IsBalanced : Order → Type 0
IsBalanced o = o.filled_amount + o.remaining_amount ≡ o.amount

abbrev pub AllBalanced : List Order → Type 0
AllBalanced rows = (k : ℕ) (o : Order) → find_by_id k rows ≡ some o → IsBalanced o

-- The row of an entry says that as much remains.
abbrev pub Backed : List Order → ℕ → OrderbookEntry → Type 0
Backed rows k e =
    (o : Order) × (find_by_id k rows ≡ some o) × (o.remaining_amount ≡ e.remaining_amount)

-- The details in the book agree with the rows.
abbrev pub Mirrors : List Order → (ℕ → Option OrderbookEntry) → Type 0
Mirrors rows details =
    (k : ℕ) (e : OrderbookEntry) → details k ≡ some e → (e.order_id ≡ k) × Backed rows k e

abbrev pub after_update : ℕ → ℕ → Execution → List Order → List Order
after_update now id x rows = update_where (has_id id) (executed now x) rows

pub find_same :
    (now id : ℕ) (x : Execution) (rows : List Order) (o : Order)
    → find_by_id id rows ≡ some o
    → find_by_id id (after_update now id x rows) ≡ some (executed now x o)
unfolding find_by_id select_first update_where
find_same now id x [] o h = cc
find_same now id x (r ∷ rows) o h = elim (Bool-cases (has_id id r)) [
  | inl hit ↦
      rw (hit, hit) (let q : r ≡ o = ground (arith, h, hit) in ap (λ a. some (executed now x a)) q)
  | inr miss ↦ rw (miss, miss) (find_same now id x rows o (rw miss at h))
]

pub find_other :
    (now id : ℕ) (x : Execution) (rows : List Order) (k : ℕ)
    → (k == id) ≡ false
    → find_by_id k (after_update now id x rows) ≡ find_by_id k rows
unfolding find_by_id select_first update_where
find_other now id x [] k apart = refl
find_other now id x (r ∷ rows) k apart = ground (arith, find_other now id x rows k)

pub update-AllBalanced :
    (now id : ℕ) (x : Execution) (rows : List Order) (o : Order)
    → find_by_id id rows ≡ some o
    → x.filled_amount + x.remaining_amount ≡ o.amount
    → AllBalanced rows
    → AllBalanced (after_update now id x rows)
update-AllBalanced now id x rows o found total h k r e = elim (Bool-cases (k == id)) [
  | inl same ↦
      let k_is : k ≡ id = (==_iff k id).0 same in
      let rows_after : List Order = after_update now id x rows in
      let found_after : some (executed now x o) ≡ some r =
        sym (find_same now id x rows o found) ∙ ap (λ j. find_by_id j rows_after) (sym k_is) ∙ e in
      let is : executed now x o ≡ r = cc in subst IsBalanced is total
  | inr apart ↦ h k r (sym (find_other now id x rows k apart) ∙ e)
]

-- What the book holds of an order whose row has been updated.
abbrev pub Fits : ℕ → Execution → Option OrderbookEntry → Type 0
Fits id x none = Unit
Fits id x (some e) = (e.order_id ≡ id) × (x.remaining_amount ≡ e.remaining_amount)

pub update-Mirrors :
    (now id : ℕ) (x : Execution) (rows : List Order) (o : Order)
    → (details : ℕ → Option OrderbookEntry) (v : Option OrderbookEntry)
    → find_by_id id rows ≡ some o
    → Fits id x v
    → Mirrors rows details
    → Mirrors (after_update now id x rows) (put_details id v details)
update-Mirrors now id x rows o details v found fits h k e shown = elim (Bool-cases (k == id)) [
  | inl same ↦
      let k_is : k ≡ id = (==_iff k id).0 same in
      let fit : Fits id x (some e) = subst (Fits id x) (rw same at shown) fits in
      (
        fit.0 ∙ sym k_is,
        (
          executed now x o,
          ap (λ j. find_by_id j (after_update now id x rows)) k_is
              ∙ find_same now id x rows o found,
          fit.1,
        ),
      )
  | inr apart ↦
      let before : (e.order_id ≡ k) × Backed rows k e = h k e (rw apart at shown) in
      (before.0, (before.1.0, find_other now id x rows k apart ∙ before.1.1, before.1.2))
]

pub Mirrors-absent :
    (id : ℕ) (rows : List Order) (details : ℕ → Option OrderbookEntry)
    → details id ≡ none
    → Mirrors rows (put_details id none details)
    → Mirrors rows details
Mirrors-absent id rows details absent h k e shown = elim (Bool-cases (k == id)) [
  | inl same ↦
      let shown_there : none ≡ some e =
        sym absent ∙ ap details (sym ((==_iff k id).0 same)) ∙ shown in
      cc
  | inr apart ↦ h k e (rw apart shown)
]
