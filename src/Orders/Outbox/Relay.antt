-- ===== src/Orders/Outbox/Relay.antt =====
-- apps/orders/src/outbox/outbox-relay.service.ts: one batch, and the delays of the polling loop.
use ether_trade.Prelude.{
  ℕ, ◌*◌, ◌/◌, Bool, true, not, Option, none, some, List, [], ◌∷◌, ◌++◌, map, Text, text, ◌==◌, leb,
  min, if◌then◌else◌, length,
}
use ether_trade.Transaction.{
  Fault, publish_failed, connection_lost, Outcome, value, throw, catch, Tx, pure, raise, ◌>>=◌,
  ◌>>◌, select, update, statement, transaction,
}
use ether_trade.Orders.Outbox.Types.{
  OutboxAggregateType, order, trade, AggregateId, DomainEvent, OutboxEvent,
}
use ether_trade.Orders.Outbox.Repository.{
  Fetch, fetch_pending_batch, mark_as_published, record_retry_attempt,
}

pub record Headers : Type 0 where
  pub origin_service : Text
  pub event_id : ℕ
  pub aggregate_id : AggregateId
  pub action : Text
  pub traceparent : Option Text
  pub tracestate : Option Text

pub record KafkaProducerRecord : Type 0 where
  pub topic : Text
  pub key : Text
  pub payload : DomainEvent
  pub headers : Headers

-- What a batch takes from outside: the environment's name, JavaScript's `trim().toLowerCase()` and
-- `toUpperCase()`, the time, the database's choice of rows, whether Kafka accepts a
-- batch, whether the update after it succeeds, and the message of an error.
pub record RelayEnv : Type 0 where
  pub app_env : Text
  pub clean : Text → Text
  pub upper : Text → Text
  pub now : ℕ
  pub fetch : Fetch
  pub sends : List KafkaProducerRecord → Bool
  pub marks : Bool
  pub message : Fault → Text

-- `getKafkaTopicName` of libs/common/src/kafka/kafka.constants.ts
abbrev pub get_kafka_topic_name : (Text → Text) → Text → Text → Text
get_kafka_topic_name clean environment domain =
    clean environment ++ text "." ++ clean domain ++ text ".lifecycle"

abbrev pub domain_of : OutboxAggregateType → Text
domain_of order = text "orders"
domain_of trade = text "matching"

-- An empty string is falsy.
abbrev pub or_text : Text → Text → Text
or_text [] b = b
or_text (c ∷ a) b = c ∷ a

abbrev pub when_truthy : Option Text → Option Text
when_truthy (some (c ∷ a)) = some (c ∷ a)
when_truthy _ = none

unfoldable pub to_record : RelayEnv → OutboxEvent → KafkaProducerRecord
to_record env e = record {
  topic = get_kafka_topic_name env.clean env.app_env (domain_of e.aggregate_type);
  key = e.partition_key;
  payload = e.payload;
  headers = record {
    origin_service = text "orders-service";
    event_id = e.id;
    aggregate_id = e.aggregate_id;
    action = or_text e.payload.action (env.upper e.event_type);
    traceparent = when_truthy e.traceparent;
    tracestate = when_truthy e.tracestate;
  };
}

abbrev pub ids_of : List OutboxEvent → List ℕ
ids_of = map (λ e. e.id)

-- The loop of the `catch` block.
unfoldable pub record_retries : ℕ → Text → List ℕ → Tx (List OutboxEvent) (Unit {0})
unfolding record_retry_attempt
record_retries now error [] = pure tt
record_retries now error (id ∷ ids) =
    update (record_retry_attempt now id error) >> record_retries now error ids

-- What Kafka has accepted is not the database's to roll back: it stands beside the transaction.
abbrev pub publish : RelayEnv → List OutboxEvent → Tx (List OutboxEvent) ℕ
publish env events =
    if not (env.sends (map (to_record env) events))
    then raise publish_failed
    else if env.marks
    then (update (mark_as_published env.now (ids_of events)) >> pure (length events))
    else statement (λ s. (throw connection_lost, record s { failed = true }))

abbrev pub publish_or_record : RelayEnv → List OutboxEvent → Tx (List OutboxEvent) ℕ
publish_or_record env events =
    catch (publish env events)
      λ fault. record_retries env.now (env.message fault) (ids_of events) >> raise fault

abbrev pub publish_some : RelayEnv → List OutboxEvent → Tx (List OutboxEvent) ℕ
publish_some env [] = pure 0
publish_some env (e ∷ es) = publish_or_record env (e ∷ es)

unfoldable pub relay_body : RelayEnv → Tx (List OutboxEvent) ℕ
unfolding fetch_pending_batch record_retries mark_as_published to_record
relay_body env = do events ← select (fetch_pending_batch env.fetch 50); publish_some env events

-- What Kafka gets of a batch.
abbrev pub accepted : RelayEnv → List OutboxEvent → List KafkaProducerRecord
accepted env [] = []
accepted env (e ∷ es) =
    if env.sends (map (to_record env) (e ∷ es)) then map (to_record env) (e ∷ es) else []

-- `processBatch`: the count or the error, the table, and what Kafka has got so far.
unfoldable pub process_batch :
    RelayEnv
    → List OutboxEvent
    → List KafkaProducerRecord
    → Outcome ℕ × List OutboxEvent × List KafkaProducerRecord
unfolding relay_body fetch_pending_batch
process_batch env rows sent =
    let (r, rows') = transaction (relay_body env) rows in
    (r, rows', sent ++ accepted env (fetch_pending_batch env.fetch 50 rows))

-- Delays in units of 1/32 ms, of which the factor 1.5 makes whole numbers from the delay of
-- 100 ms up to that of 2000 ms.
abbrev pub min_delay : ℕ
min_delay = 3200

abbrev pub max_delay : ℕ
max_delay = 64000

abbrev pub back_off : ℕ → ℕ
back_off delay = min (delay * 3 / 2) max_delay

-- One round of `runPollLoop`, with what `processBatch` has given.
unfoldable pub next_delay : Outcome ℕ → ℕ → ℕ
next_delay (value processed) delay =
    if leb 50 processed then min_delay else if processed == 0 then back_off delay else min_delay
next_delay (throw e) delay = back_off delay
