-- ===== src/Accounts/Settlement/Funds.antt =====
-- A settlement moves funds between its four accounts and makes none, in either currency.
use ether_trade.Prelude.{
  ℕ, Bool, true, false, some, List, [], ◌∷◌, ◌≡◌, ◌≢◌, ◌∙◌, refl, sym, ap, inl, inr, Text, text_eq,
  if◌then◌else◌, All, subst, select_first, update_where, All-update_where, Bool-cases, arith,
}
use ether_trade.Prelude.Int.{ℤ, pos, ◌+ℤ◌, ◌-ℤ◌, int_laws}
use ether_trade.Accounts.Types.{Account, ProcessedEvent, Database, Env}
use ether_trade.Accounts.Repository.Queries.{has_id}
use ether_trade.Accounts.Repository.Books.{UniqueIds}
use ether_trade.Accounts.Repository.Funds.{funds, funds_in, add_if}
use ether_trade.Accounts.Settlement.Calculation.{Trade, SettlementAmounts, AccountIds}
use ether_trade.Accounts.Settlement.Posting.{settle}
use ether_trade.Accounts.Settlement.Outcome.{
  pay, receive_base, deliver, receive_quote, paid, base_received, delivered, quote_received,
  settle_cases,
}

-- A change of balances: the account's id and currency stay, and its funds move by `e`.
record Moves (f : Account → Account) (e : ℤ) : Type 0 where
  same_id : (a : Account) → (f a).id ≡ a.id
  same_currency : (a : Account) → (f a).currency ≡ a.currency
  moved : (a : Account) → funds (f a) ≡ funds a +ℤ e

-- The row of an id, in a currency.
pub record HasCurrency (rows : List Account) (i : ℕ) (c : Text) : Type 0 where
  pub row : Account
  pub found : select_first (has_id i) rows ≡ some row
  pub currency : row.currency ≡ c

untouched :
    (i : ℕ) (f : Account → Account) (rest : List Account)
    → All (λ a. a.id ≢ i) rest
    → update_where (has_id i) f rest ≡ rest
unfolding update_where
untouched i f [] h = refl
untouched i f (a ∷ rest) h = ground (arith, h.0, untouched i f rest h.1)

module _ (i : ℕ) (f : Account → Account) (e : ℤ) (m : Moves f e) where
  update-UniqueIds :
      (rows : List Account) → UniqueIds rows → UniqueIds (update_where (has_id i) f rows)
  unfolding update_where
  update-UniqueIds [] u = tt
  update-UniqueIds (r ∷ rest) u =
      let apart =
        All-update_where (λ s. s.id ≢ r.id) (has_id i) f rest
          (λ s hit ne q. ne (sym (m.same_id s) ∙ q)) u.0 in
      elim (Bool-cases (has_id i r)) [
        | inl hit ↦ rw hit (
          subst (λ j. All {A = Account} (λ s. s.id ≢ j) (update_where (has_id i) f rest))
              (sym (m.same_id r)) apart,
          update-UniqueIds rest u.1,
        )
        | inr miss ↦ rw miss (apart, update-UniqueIds rest u.1)
      ]

  -- The row that an id finds after the update is the image of the row that it found before.
  select-update :
      (rows : List Account) (j : ℕ) (y : Account)
      → select_first (has_id j) rows ≡ some y
      → select_first (has_id j) (update_where (has_id i) f rows)
        ≡ some (if has_id i y then f y else y)
  unfolding update_where select_first
  select-update [] j y h = cc
  select-update (r ∷ rest) j y h = elim (Bool-cases (has_id j r)) [
    | inl hit ↦ let same : r ≡ y = ground arith in rw same (ground (arith, m.same_id y))
    | inr miss ↦ ground (arith, m.same_id r, select-update rest j y)
  ]

  update-HasCurrency :
      (rows : List Account) (j : ℕ) (c : Text)
      → HasCurrency rows j c
      → HasCurrency (update_where (has_id i) f rows) j c
  update-HasCurrency rows j c h = record {
    row = if has_id i h.row then f h.row else h.row;
    found = select-update rows j h.row h.found;
    currency = elim (Bool-cases (has_id i h.row)) [
      | inl hit ↦ rw hit (m.same_currency h.row ∙ h.currency)
      | inr miss ↦ rw miss h.currency
    ];
  }

  funds_in-update :
      (rows : List Account) (c q : Text)
      → UniqueIds rows
      → HasCurrency rows i q
      → funds_in c (update_where (has_id i) f rows)
        ≡ funds_in c rows +ℤ (if text_eq q c then e else pos 0)
  unfolding update_where select_first funds_in
  funds_in-update [] c q u h = absurd (cc (h.found))
  funds_in-update (r ∷ rest) c q u h = elim (Bool-cases (has_id i r)) [
    | inl hit ↦
        let here : r.currency ≡ q = ground (arith, h.found, h.currency) in
        let quiet =
          untouched i f rest
            (subst (λ j. All {A = Account} (λ s. s.id ≢ j) rest) (ground arith) u.0) in
        rw (hit, quiet, m.same_currency r, m.moved r, here)
          (add_if (text_eq q c) (funds r) e (funds_in c rest))
    | inr miss ↦
        let later : HasCurrency rest i q = record {
          row = h.row;
          found = ground (arith, h.found);
          currency = h.currency;
        } in
        rw (miss, funds_in-update rest c q u.1 later) (omega int_laws)
  ]

-- The four accounts of a settlement, in the currencies of the trade.
pub record Participants (ids : AccountIds) (amounts : SettlementAmounts) (rows : List Account)
    : Type 0 where
  pub unique : UniqueIds rows
  pub buyer_quote : HasCurrency rows ids.buyer_quote amounts.quote_currency
  pub buyer_base : HasCurrency rows ids.buyer_base amounts.base_currency
  pub seller_base : HasCurrency rows ids.seller_base amounts.base_currency
  pub seller_quote : HasCurrency rows ids.seller_quote amounts.quote_currency

balance :
    (q b : Bool) (cost surplus volume s : ℤ)
    → s
        +ℤ (if q then surplus -ℤ (cost +ℤ surplus) else pos 0)
        +ℤ (if b then volume else pos 0)
        +ℤ (if b then pos 0 -ℤ volume else pos 0)
        +ℤ (if q then cost else pos 0)
      ≡ s
balance true true cost surplus volume s = omega int_laws
balance true false cost surplus volume s = omega int_laws
balance false true cost surplus volume s = omega int_laws
balance false false cost surplus volume s = omega int_laws

module _ (env : Env) (amounts : SettlementAmounts) where
  pay-Moves :
      Moves
        (pay env amounts)
        (pos amounts.surplus_refund -ℤ (pos amounts.quote_cost +ℤ pos amounts.surplus_refund))
  pay-Moves = record { same_id = λ a. refl; same_currency = λ a. refl; moved = λ a. omega int_laws }

  receive_base-Moves : Moves (receive_base env amounts) (pos amounts.base_quantity)
  receive_base-Moves = record {
    same_id = λ a. refl;
    same_currency = λ a. refl;
    moved = λ a. omega int_laws;
  }

  deliver-Moves : Moves (deliver env amounts) (pos 0 -ℤ pos amounts.base_quantity)
  deliver-Moves = record {
    same_id = λ a. refl;
    same_currency = λ a. refl;
    moved = λ a. omega int_laws;
  }

  receive_quote-Moves : Moves (receive_quote env amounts) (pos amounts.quote_cost)
  receive_quote-Moves = record {
    same_id = λ a. refl;
    same_currency = λ a. refl;
    moved = λ a. omega int_laws;
  }

  funds_in-posted :
      (ids : AccountIds) (rows : List Account) (c : Text)
      → Participants ids amounts rows
      → funds_in c (quote_received env amounts ids rows) ≡ funds_in c rows
  funds_in-posted ids rows c p =
      let r1 = paid env amounts ids rows in
      let r2 = base_received env amounts ids rows in
      let r3 = delivered env amounts ids rows in
      let u1 = update-UniqueIds ids.buyer_quote _ _ pay-Moves rows p.unique in
      let u2 = update-UniqueIds ids.buyer_base _ _ receive_base-Moves r1 u1 in
      let u3 = update-UniqueIds ids.seller_base _ _ deliver-Moves r2 u2 in
      let keep1 = update-HasCurrency ids.buyer_quote _ _ pay-Moves rows in
      let keep2 = update-HasCurrency ids.buyer_base _ _ receive_base-Moves r1 in
      let keep3 = update-HasCurrency ids.seller_base _ _ deliver-Moves r2 in
      let f1 = funds_in-update ids.buyer_quote _ _ pay-Moves rows c _ p.unique p.buyer_quote in
      let f2 =
        funds_in-update ids.buyer_base _ _ receive_base-Moves r1 c _ u1 (keep1 _ _ p.buyer_base) in
      let f3 =
        funds_in-update ids.seller_base _ _ deliver-Moves r2 c _ u2
          (keep2 _ _ (keep1 _ _ p.seller_base)) in
      let f4 =
        funds_in-update ids.seller_quote _ _ receive_quote-Moves r3 c _ u3
          (keep3 _ _ (keep2 _ _ (keep1 _ _ p.seller_quote))) in
      rw (f4, f3, f2, f1)
        (balance (text_eq amounts.quote_currency c) (text_eq amounts.base_currency c)
          (pos amounts.quote_cost) (pos amounts.surplus_refund) (pos amounts.base_quantity)
          (funds_in c rows))

-- Whatever comes of a settlement of four accounts that are in the currencies of the trade, it
-- changes the funds of all accounts in no currency; nothing else happens meanwhile.
pub settle_funds :
    (env : Env) (event : ProcessedEvent) (trade : Trade) (amounts : SettlementAmounts)
    (ids : AccountIds) (d : Database) (c : Text)
    → env.while_locking d ≡ d
    → Participants ids amounts d.accounts
    → funds_in c (settle env event trade amounts ids d).1.accounts ≡ funds_in c d.accounts
settle_funds env event trade amounts ids d c quiet p =
    let same : funds_in c (env.while_locking d).accounts ≡ funds_in c d.accounts =
      ap (λ x. funds_in c x.accounts) quiet in
    settle_cases (λ z. funds_in c z.1.accounts ≡ funds_in c d.accounts) env event trade amounts ids
      d (λ _. refl) (λ _. same)
      (λ _ _.
        funds_in-posted env amounts ids (env.while_locking d).accounts c
          (subst (λ x. Participants ids amounts x.accounts) (sym quiet) p)
        ∙ same)
