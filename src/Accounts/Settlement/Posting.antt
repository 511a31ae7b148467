-- ===== src/Accounts/Settlement/Posting.antt =====
-- The transaction of apps/accounts/src/consumers/trades-settlement.consumer.ts, with the table of
-- processed events (processed-events.repository.ts).
use ether_trade.Prelude.{
  ℕ, Bool, ◌&&◌, Option, none, some, List, [], ◌∷◌, ◌++◌, ◌==◌, if◌then◌else◌, select_first,
}
use ether_trade.Prelude.Int.{ℤ, pos, ◌+ℤ◌, ◌-ℤ◌}
use ether_trade.Transaction.{
  locks_not_acquired, Outcome, Tx, pure, raise, ◌>>=◌, ◌>>◌, select, await_others, update, insert,
  transaction,
}
use ether_trade.Accounts.Types.{Account, LedgerTransaction, ProcessedEvent, Database, Env}
use ether_trade.Accounts.Repository.Queries.{has_id, add_ledger, update_returning, is_some}
use ether_trade.Accounts.Settlement.Calculation.{
  AccountIds, SettlementAmounts, SettlementLedgerEntry, Trade, build_settlement_ledger_params,
}

-- `isEventProcessed`
unfoldable pub is_event_processed : ℕ → Database → Bool
is_event_processed event_id d =
    is_some (select_first (λ e. e.event_id == event_id) d.processed_events)

abbrev pub add_processed : ProcessedEvent → Database → Database
add_processed e d = record d { processed_events = d.processed_events ++ e ∷ [] }

-- `markEventProcessed`; `event_id` is unique in its table.
unfoldable pub mark_event_processed : ProcessedEvent → Tx Database (Unit {0})
mark_event_processed e = insert (is_event_processed e.event_id) (add_processed e)

-- `afterBalancesMap.get(id)`: of entries with one id the last counts.
abbrev pub balances_of : Option Account → ℤ × ℤ
balances_of none = (pos 0, pos 0)
balances_of (some a) = (a.available_balance, a.locked_balance)

abbrev pub after_balances : List (ℕ × Option Account) → ℕ → ℤ × ℤ
after_balances [] id = (pos 0, pos 0)
after_balances ((k, a) ∷ rest) id = if k == id then balances_of a else after_balances rest id

-- The ledger row of an entry; trade rows carry no idempotency key.
abbrev pub settlement_row : SettlementLedgerEntry → ℤ × ℤ → LedgerTransaction
settlement_row e (available, locked) = record {
  account_id = e.account_id;
  user_id = e.user_id;
  currency = e.currency;
  type = e.type;
  amount = e.amount;
  available_delta = e.available_delta;
  locked_delta = e.locked_delta;
  balance_after_available = available;
  balance_after_locked = locked;
  idempotency_key = none;
  reference_id = some e.reference_id;
}

unfoldable pub insert_entries : (ℕ → ℤ × ℤ) → List SettlementLedgerEntry → Tx Database (Unit {0})
insert_entries after [] = pure tt
insert_entries after (e ∷ es) =
    let rest = insert_entries after es in
    update (add_ledger (settlement_row e (after e.account_id))) >> rest

abbrev pub all_locked : AccountIds → Database → Bool
all_locked ids d =
    is_some (select_first (has_id ids.buyer_quote) d.accounts)
    && is_some (select_first (has_id ids.buyer_base) d.accounts)
    && is_some (select_first (has_id ids.seller_quote) d.accounts)
    && is_some (select_first (has_id ids.seller_base) d.accounts)

-- The four updates, their ledger rows and the mark, once the accounts are locked.
unfoldable pub settle_accounts :
    Env → ProcessedEvent → Trade → SettlementAmounts → AccountIds → Tx Database (Unit {0})
unfolding build_settlement_ledger_params insert_entries mark_event_processed
settle_accounts env event trade amounts ids = do
  let cost = pos amounts.quote_cost
  let surplus = pos amounts.surplus_refund
  let volume = pos amounts.base_quantity
  buyer_quote ← update_returning (has_id ids.buyer_quote) λ x. record x {
    available_balance = x.available_balance +ℤ surplus;
    locked_balance = x.locked_balance -ℤ (cost +ℤ surplus);
    updated_at = env.now;
  }
  buyer_base ←
      update_returning (has_id ids.buyer_base)
        λ x. record x { available_balance = x.available_balance +ℤ volume; updated_at = env.now }
  seller_base ←
      update_returning (has_id ids.seller_base)
        λ x. record x { locked_balance = x.locked_balance -ℤ volume; updated_at = env.now }
  seller_quote ←
      update_returning (has_id ids.seller_quote)
        λ x. record x { available_balance = x.available_balance +ℤ cost; updated_at = env.now }
  insert_entries
      (after_balances (
        (ids.seller_quote, seller_quote)
        ∷ (ids.seller_base, seller_base)
        ∷ (ids.buyer_base, buyer_base)
        ∷ (ids.buyer_quote, buyer_quote)
        ∷ []))
      (build_settlement_ledger_params trade amounts ids)
  mark_event_processed event

-- The transaction of `handleMessage` for an event that is not in the table yet.
unfoldable pub settle_unprocessed :
    Env → ProcessedEvent → Trade → SettlementAmounts → AccountIds → Tx Database (Unit {0})
unfolding settle_accounts
settle_unprocessed env event trade amounts ids = do
  await_others env.while_locking
  locked ← select (all_locked ids)
  if locked then settle_accounts env event trade amounts ids else raise locks_not_acquired

unfoldable pub settle :
    Env
    → ProcessedEvent
    → Trade
    → SettlementAmounts
    → AccountIds
    → Database
    → Outcome (Unit {0}) × Database
unfolding settle_unprocessed
settle env event trade amounts ids = transaction do
  processed ← select (is_event_processed event.event_id)
  if processed then pure tt else settle_unprocessed env event trade amounts ids
