-- ===== src/Accounts/Settlement/Messages.antt =====
-- handleMessage of apps/accounts/src/consumers/trades-settlement.consumer.ts: from a Kafka message to
-- the transaction.
use ether_trade.Prelude.{
  ℕ, Bool, false, not, Option, none, some, [], ◌∷◌, Text, text, text_eq, ◌==◌, if◌then◌else◌,
}
use ether_trade.Transaction.{Fault, Outcome, value, throw}
use ether_trade.Accounts.Types.{Account, ProcessedEvent, Database, Env}
use ether_trade.Accounts.Repository.Operations.{find_or_create}
use ether_trade.Accounts.Settlement.Calculation.{AccountIds, Trade, calculate_settlement_amounts}
use ether_trade.Accounts.Settlement.Posting.{settle}

pub data Handled : Type 0 where
  ignored self_trade settled : Handled
  invalid_event_schema : Handled
  failed : Fault → Handled

abbrev pub settled_by : Outcome (Unit {0}) × Database → Handled × Database
settled_by (value _, d) = (settled, d)
settled_by (throw f, d) = (failed f, d)

-- `await Promise.all([…])` over the accounts, and what follows it.
abbrev pub with_accounts :
    Outcome Account
    → Outcome Account
    → Outcome Account
    → Outcome Account
    → Database
    → (AccountIds → Outcome (Unit {0}) × Database)
    → Handled × Database
with_accounts (value a) (value b) (value c) (value e) d rest = settled_by (
    rest
      (record { buyer_quote = a.id; buyer_base = b.id; seller_quote = c.id; seller_base = e.id }))
with_accounts (throw f) _ _ _ d rest = (failed f, d)
with_accounts (value a) (throw f) _ _ d rest = (failed f, d)
with_accounts (value a) (value b) (throw f) _ d rest = (failed f, d)
with_accounts (value a) (value b) (value c) (throw f) d rest = (failed f, d)

-- What the four `findOrCreate` calls and the transaction take from outside.
pub record MessageEnv : Type 0 where
  pub buyer_quote : Env
  pub buyer_base : Env
  pub seller_quote : Env
  pub seller_base : Env
  pub settlement : Env

-- `DomainEventEnvelope<TradeExecutedEvent>`; a field that is missing is `none`.
pub record Envelope : Type 0 where
  pub event_id : Option ℕ
  pub event_type : Text
  pub action : Option Text
  pub payload : Option Trade

pub record Message : Type 0 where
  pub value : Option Envelope
  pub action_header : Option Text

abbrev consumer_group : Text
consumer_group = text "accounts-settlement-group"

-- The four `findOrCreate` calls one after another, in one of the orders of `Promise.all`, and then
-- the transaction.
unfoldable pub settle_trade :
    (ℕ → ℕ) → MessageEnv → ProcessedEvent → Trade → Database → Handled × Database
unfolding find_or_create settle calculate_settlement_amounts
settle_trade to_fixed env event trade d =
    let amounts = calculate_settlement_amounts to_fixed trade in
    let (bq, d1) = find_or_create env.buyer_quote trade.buyer_user_id amounts.quote_currency d in
    let (bb, d2) = find_or_create env.buyer_base trade.buyer_user_id amounts.base_currency d1 in
    let (sq, d3) = find_or_create env.seller_quote trade.seller_user_id amounts.quote_currency d2 in
    let (sb, d4) = find_or_create env.seller_base trade.seller_user_id amounts.base_currency d3 in
    with_accounts bq bb sq sb d4 λ ids. settle env.settlement event trade amounts ids d4

-- `handleMessage`. The first test is on the envelope, its payload and its id; an empty action falls
-- back on the header, and an absent one passes.
abbrev trade_executed : Text
trade_executed = text "TRADE_EXECUTED"

abbrev pub or_else : Option Text → Option Text → Option Text
or_else none other = other
or_else (some []) other = other
or_else (some (c ∷ t)) other = some (c ∷ t)

abbrev pub is_other_action : Option Text → Bool
is_other_action none = false
is_other_action (some []) = false
is_other_action (some (c ∷ t)) = not (text_eq (c ∷ t) trade_executed)

unfoldable pub handle_trade :
    (ℕ → ℕ) → MessageEnv → ℕ → Text → Trade → Database → Handled × Database
unfolding settle_trade
handle_trade to_fixed env event_id event_type trade d =
    if trade.buyer_user_id == trade.seller_user_id
    then (self_trade, d)
    else settle_trade to_fixed env
        (record {
          event_id = event_id;
          event_type = event_type;
          consumer_group = consumer_group;
          processed_at = env.settlement.now;
        })
        trade d

abbrev handle_envelope :
    (ℕ → ℕ)
    → MessageEnv
    → Option Text
    → Envelope
    → Option ℕ
    → Option Trade
    → Database
    → Handled × Database
handle_envelope to_fixed env header e none _ d = (invalid_event_schema, d)
handle_envelope to_fixed env header e (some id) none d = (invalid_event_schema, d)
handle_envelope to_fixed env header e (some id) (some trade) d =
    if is_other_action (or_else e.action header)
    then (ignored, d)
    else handle_trade to_fixed env id e.event_type trade d

unfoldable pub handle_message : (ℕ → ℕ) → MessageEnv → Message → Database → Handled × Database
unfolding handle_trade
handle_message to_fixed env message d = elim message.value [
  | none ↦ (invalid_event_schema, d)
  | some e ↦ handle_envelope to_fixed env message.action_header e e.event_id e.payload d
]
