-- ===== src/Accounts/Settlement/Books.antt =====
-- A settlement keeps the accounts in step with the ledger, moves funds and makes none, and happens
-- once for an event.
use ether_trade.Prelude.{
  ℕ, true, false, none, List, [], ◌∷◌, ◌++◌, ◌≡◌, ◌≢◌, ◌∙◌, refl, ap, inl, inr, ◌==◌, All, subst,
  select_first, select_first-append, update_where, Bool-cases, arith,
}
use ether_trade.Prelude.Int.{◌+ℤ◌, +ℤ-zero, int_laws}
use ether_trade.Transaction.{value}
use ether_trade.Accounts.Types.{Account, LedgerTransaction, ProcessedEvent, Database, Env}
use ether_trade.Accounts.Repository.Queries.{has_id, is_some-none}
use ether_trade.Accounts.Repository.Books.{
  Reconciles, ledger_available, ledger_locked, ledger_available-append, ledger_locked-append,
}
use ether_trade.Accounts.Settlement.Calculation.{
  Trade, SettlementAmounts, AccountIds, build_settlement_ledger_params,
}
use ether_trade.Accounts.Settlement.Posting.{settle, is_event_processed}
use ether_trade.Accounts.Settlement.Outcome.{
  pay, receive_base, deliver, receive_quote, posted, settle-outcome, settle_cases,
}

-- A ledger row that says what a change did to its account.
record Records (i : ℕ) (f : Account → Account) (t : LedgerTransaction) : Type 0 where
  owner : t.account_id ≡ i
  same_id : (a : Account) → (f a).id ≡ a.id
  available : (a : Account) → (f a).available_balance ≡ a.available_balance +ℤ t.available_delta
  locked : (a : Account) → (f a).locked_balance ≡ a.locked_balance +ℤ t.locked_delta

module _ (i : ℕ) (f : Account → Account) (ts : List LedgerTransaction) (t : LedgerTransaction)
    (r : Records i f t) where
  changed-Reconciles : (a : Account) → a.id ≡ i → Reconciles ts a → Reconciles (ts ++ t ∷ []) (f a)
  changed-Reconciles a same h = record {
    available = ground (
      arith,
      ledger_available-append (f a).id ts t,
      r.available a,
      r.same_id a,
      r.owner,
      h.available,
    );
    locked =
        ground
          (arith, ledger_locked-append (f a).id ts t, r.locked a, r.same_id a, r.owner, h.locked);
  }

  kept-Reconciles : (a : Account) → a.id ≢ i → Reconciles ts a → Reconciles (ts ++ t ∷ []) a
  kept-Reconciles a other h = record {
    available = ground (
      arith,
      ledger_available-append a.id ts t,
      +ℤ-zero (ledger_available a.id ts),
      r.owner,
      h.available,
    );
    locked =
        ground (
          arith,
          ledger_locked-append a.id ts t,
          +ℤ-zero (ledger_locked a.id ts),
          r.owner,
          h.locked,
        );
  }

  update-Reconciles :
      (rows : List Account)
      → All (Reconciles ts) rows
      → All (Reconciles (ts ++ t ∷ [])) (update_where (has_id i) f rows)
  unfolding update_where
  update-Reconciles [] h = tt
  update-Reconciles (a ∷ rest) h = elim (Bool-cases (has_id i a)) [
    | inl hit ↦ rw hit (changed-Reconciles a (ground arith) h.0, update-Reconciles rest h.1)
    | inr miss ↦ rw miss (kept-Reconciles a (ground arith) h.0, update-Reconciles rest h.1)
  ]

abbrev pub IsReconciled : Database → Type 0
IsReconciled d = All (Reconciles d.ledger) d.accounts

posted-IsReconciled :
    (env : Env) (event : ProcessedEvent) (trade : Trade) (amounts : SettlementAmounts)
    (ids : AccountIds) (d : Database)
    → IsReconciled d
    → IsReconciled (posted env event trade amounts ids d)
unfolding build_settlement_ledger_params
posted-IsReconciled env event trade amounts ids d h =
    update-Reconciles ids.seller_quote (receive_quote env amounts) _ _
      (record {
        owner = refl;
        same_id = λ a. refl;
        available = λ a. refl;
        locked = λ a. omega int_laws;
      })
      _
      (update-Reconciles ids.seller_base (deliver env amounts) _ _
        (record {
          owner = refl;
          same_id = λ a. refl;
          available = λ a. omega int_laws;
          locked = λ a. omega int_laws;
        })
        _
        (update-Reconciles ids.buyer_base (receive_base env amounts) _ _
          (record {
            owner = refl;
            same_id = λ a. refl;
            available = λ a. refl;
            locked = λ a. omega int_laws;
          })
          _
          (update-Reconciles ids.buyer_quote (pay env amounts) _ _
            (record {
              owner = refl;
              same_id = λ a. refl;
              available = λ a. refl;
              locked = λ a. omega int_laws;
            })
            d.accounts h)))

-- Whatever comes of a settlement, if the balances were the sums of the ledger's entries before and
-- in what other transactions leave, they are so afterwards.
pub settle-IsReconciled :
    (env : Env) (event : ProcessedEvent) (trade : Trade) (amounts : SettlementAmounts)
    (ids : AccountIds) (d : Database)
    → IsReconciled d
    → IsReconciled (env.while_locking d)
    → IsReconciled (settle env event trade amounts ids d).1
settle-IsReconciled env event trade amounts ids d h hw =
    settle_cases (λ z. IsReconciled z.1) env event trade amounts ids d (λ _. h) (λ _. hw)
      (λ _ _. posted-IsReconciled env event trade amounts ids (env.while_locking d) hw)

marked :
    (event : ProcessedEvent) (d : Database) (accounts : List Account)
    (ledger : List LedgerTransaction)
    → is_event_processed event.event_id d ≡ false
    → is_event_processed event.event_id (record {
      accounts = accounts;
      ledger = ledger;
      processed_events = d.processed_events ++ event ∷ [];
    })
      ≡ true
unfolding is_event_processed
marked event d accounts ledger new =
    let none_yet : select_first (λ e. e.event_id == event.event_id) d.processed_events ≡ none =
      is_some-none _ new in
    rw (select_first-append (λ e. e.event_id == event.event_id) d.processed_events event none_yet)
      (ground arith)

-- A settled event is not settled again: delivered once more, whatever trade it then carries and
-- whichever accounts are found for it, it changes nothing.
pub settle_once :
    (env later : Env) (event : ProcessedEvent) (trade again : Trade)
    (amounts more : SettlementAmounts) (ids others : AccountIds) (d d' : Database)
    → settle env event trade amounts ids d ≡ (value tt, d')
    → settle later event again more others d' ≡ (value tt, d')
settle_once env later event trade again amounts more ids others d d' h =
    let processed =
      settle_cases (λ z. z.0 ≡ value tt → is_event_processed event.event_id z.1 ≡ true) env event
        trade amounts ids d (λ yet _. yet) (λ f e. cc)
        (λ _ new _. marked event (env.while_locking d) _ _ new) (ap (λ z. z.0) h) in
    let here : is_event_processed event.event_id d' ≡ true =
      subst (λ z. is_event_processed event.event_id z.1 ≡ true) h processed in
    settle-outcome later event again more others d' ∙ rw here
