-- ===== src/Accounts/Settlement/Outcome.antt =====
-- What the transaction of a settlement comes to: it is skipped, refused, or posts all of its
-- updates, ledger rows and its mark.
use mathlib.Core.Option
use ether_trade.Prelude.{
  true, false, List, [], ◌∷◌, ◌++◌, map, ◌≡◌, inl, inr, if◌then◌else◌, select_first, update_where,
  Bool-cases,
}
use ether_trade.Prelude.Int.{pos, ◌+ℤ◌, ◌-ℤ◌}
use ether_trade.Transaction.{
  Fault, unique_violation, locks_not_acquired, Outcome, value, throw, closed, closed-if,
}
use ether_trade.Accounts.Types.{Account, LedgerTransaction, ProcessedEvent, Database, Env}
use ether_trade.Accounts.Repository.Queries.{has_id}
use ether_trade.Accounts.Settlement.Calculation.{
  Trade, SettlementAmounts, AccountIds, build_settlement_ledger_params,
}
use ether_trade.Accounts.Settlement.Posting.{
  settle, settle_accounts, is_event_processed, all_locked, after_balances, settlement_row,
}

-- The changes of the four updates.
module _ (env : Env) (amounts : SettlementAmounts) where
  abbrev pub pay : Account → Account
  pay x = record x {
    available_balance = x.available_balance +ℤ pos amounts.surplus_refund;
    locked_balance = x.locked_balance -ℤ (pos amounts.quote_cost +ℤ pos amounts.surplus_refund);
    updated_at = env.now;
  }

  abbrev pub receive_base : Account → Account
  receive_base x = record x {
    available_balance = x.available_balance +ℤ pos amounts.base_quantity;
    updated_at = env.now;
  }

  abbrev pub deliver : Account → Account
  deliver x = record x {
    locked_balance = x.locked_balance -ℤ pos amounts.base_quantity;
    updated_at = env.now;
  }

  abbrev pub receive_quote : Account → Account
  receive_quote x = record x {
    available_balance = x.available_balance +ℤ pos amounts.quote_cost;
    updated_at = env.now;
  }

  module _ (ids : AccountIds) (rows : List Account) where
    abbrev pub paid : List Account
    paid = update_where (has_id ids.buyer_quote) pay rows

    abbrev pub base_received : List Account
    base_received = update_where (has_id ids.buyer_base) receive_base paid

    abbrev pub delivered : List Account
    delivered = update_where (has_id ids.seller_base) deliver base_received

    abbrev pub quote_received : List Account
    quote_received = update_where (has_id ids.seller_quote) receive_quote delivered

    -- The ledger rows, each with the balances that its account has after its update.
    abbrev pub rows_of : Trade → List LedgerTransaction
    rows_of trade =
        map
          (λ e. settlement_row e (
            after_balances
              ((
                ids.seller_quote,
                Option.map receive_quote (select_first (has_id ids.seller_quote) delivered),
              )
                ∷ (
                  ids.seller_base,
                  Option.map deliver (select_first (has_id ids.seller_base) base_received),
                )
                ∷ (
                  ids.buyer_base,
                  Option.map receive_base (select_first (has_id ids.buyer_base) paid),
                )
                ∷ (ids.buyer_quote, Option.map pay (select_first (has_id ids.buyer_quote) rows))
                ∷ [])
              e.account_id))
          (build_settlement_ledger_params trade amounts ids)

abbrev pub append_each : List LedgerTransaction → List LedgerTransaction → List LedgerTransaction
append_each ts [] = ts
append_each ts (t ∷ more) = append_each (ts ++ t ∷ []) more

abbrev pub posted :
    Env → ProcessedEvent → Trade → SettlementAmounts → AccountIds → Database → Database
posted env event trade amounts ids d = record {
  accounts = quote_received env amounts ids d.accounts;
  ledger = append_each d.ledger (rows_of env amounts ids d.accounts trade);
  processed_events = d.processed_events ++ event ∷ [];
}

settle_accounts-outcome :
    (env : Env) (event : ProcessedEvent) (trade : Trade) (amounts : SettlementAmounts)
    (ids : AccountIds) (w : Database)
    → closed
        (settle_accounts env event trade amounts ids (record { base = w; db = w; failed = false }))
      ≡ (if is_event_processed event.event_id w
          then (throw unique_violation, w)
          else (value tt, posted env event trade amounts ids w))
unfolding settle_accounts is_event_processed build_settlement_ledger_params
settle_accounts-outcome env event trade amounts ids w =
    closed-if (is_event_processed event.event_id w) _ _

pub settle-outcome :
    (env : Env) (event : ProcessedEvent) (trade : Trade) (amounts : SettlementAmounts)
    (ids : AccountIds) (d : Database)
    → let w = env.while_locking d in
      settle env event trade amounts ids d ≡ (
        if is_event_processed event.event_id d
        then (value tt, d)
        else if all_locked ids w
        then if is_event_processed event.event_id w
          then (throw unique_violation, w)
          else (value tt, posted env event trade amounts ids w)
        else (throw locks_not_acquired, w))
unfolding settle
settle-outcome env event trade amounts ids d =
    let w = env.while_locking d in
    elim (Bool-cases (is_event_processed event.event_id d)) [
      | inl done ↦ rw done
      | inr new ↦ elim (Bool-cases (all_locked ids w)) [
        | inr missing ↦ rw (new, missing)
        | inl locked ↦ rw (new, locked) (settle_accounts-outcome env event trade amounts ids w)
      ]
    ]

-- The ends of a settlement, for a statement about its result and its database.
pub settle_cases {ℓ} :
    (P : Outcome (Unit {0}) × Database → Type ℓ) (env : Env) (event : ProcessedEvent)
    (trade : Trade) (amounts : SettlementAmounts) (ids : AccountIds) (d : Database)
    → (is_event_processed event.event_id d ≡ true → P (value tt, d))
    → ((f : Fault) → P (throw f, env.while_locking d))
    → (all_locked ids (env.while_locking d) ≡ true
        → is_event_processed event.event_id (env.while_locking d) ≡ false
        → P (value tt, posted env event trade amounts ids (env.while_locking d)))
    → P (settle env event trade amounts ids d)
settle_cases P env event trade amounts ids d skipped refused went =
    let w = env.while_locking d in
    rw (settle-outcome env event trade amounts ids d)
      (elim (Bool-cases (is_event_processed event.event_id d)) [
        | inl done ↦ rw done (skipped done)
        | inr new ↦ elim (Bool-cases (all_locked ids w)) [
          | inr missing ↦ rw (new, missing) (refused locks_not_acquired)
          | inl locked ↦ elim (Bool-cases (is_event_processed event.event_id w)) [
            | inl late ↦ rw (new, locked, late) (refused unique_violation)
            | inr first ↦ rw (new, locked, first) (went locked first)
          ]
        ]
      ])
