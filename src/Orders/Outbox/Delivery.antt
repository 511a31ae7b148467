-- ===== src/Orders/Outbox/Delivery.antt =====
-- What the relay of apps/orders/src/outbox/outbox-relay.service.ts promises: every outcome of a
-- batch, that what is marked as published has been sent, and the bounds of the delays.
use ether_trade.Prelude.{
  ℕ, ◌≤◌, Bool, true, false, not, ◌||◌, List, [], ◌∷◌, ◌++◌, map, Text, ◌==◌, if◌then◌else◌, ◌≡◌,
  refl, ap, ◌∙◌, arith, Bool-cases, inl, inr, length, All, All-update_where,
}
use ether_trade.Transaction.{
  Fault, publish_failed, connection_lost, in_failed_transaction, Outcome, value, throw, closed,
  raise, ◌>>◌,
}
use ether_trade.Orders.Outbox.Types.{is_published, OutboxEvent}
use ether_trade.Orders.Outbox.Repository.{
  fetch_pending_batch, mark_as_published, record_retry_attempt, elem,
}
use ether_trade.Orders.Outbox.Relay.{
  RelayEnv, KafkaProducerRecord, to_record, ids_of, record_retries, publish_some, relay_body,
  accepted, process_batch, min_delay, max_delay, next_delay,
}

abbrev pub batch_of : RelayEnv → List OutboxEvent → List OutboxEvent
batch_of env rows = fetch_pending_batch env.fetch 50 rows

-- The four ends of a batch.
abbrev pub relayed_batch :
    RelayEnv → List OutboxEvent → List OutboxEvent → Outcome ℕ × List OutboxEvent
relayed_batch env rows [] = (value 0, rows)
relayed_batch env rows (e ∷ es) =
    if not (env.sends (map (to_record env) (e ∷ es)))
    then (throw publish_failed, rows)
    else if env.marks
    then (value (length (e ∷ es)), mark_as_published env.now (ids_of (e ∷ es)) rows)
    else (throw in_failed_transaction, rows)

abbrev out_of : Fault → List OutboxEvent → Outcome ℕ × List OutboxEvent
out_of e rows = (throw e, rows)

-- In a session that has failed, not even a retry is recorded.
retries_fail :
    (now : ℕ) (error : Text) (id : ℕ) (ids : List ℕ) (e : Fault) (base db : List OutboxEvent)
    → closed (
        (record_retries now error (id ∷ ids) >> raise e)
          (record { base = base; db = db; failed = true }))
      ≡ out_of in_failed_transaction base
unfolding record_retries
retries_fail now error id ids e base db = refl

-- The retries are recorded in the working copy only.
retries_end :
    (now : ℕ) (error : Text) (ids : List ℕ) (base db : List OutboxEvent)
    → closed (
        (record_retries now error ids >> raise publish_failed)
          (record { base = base; db = db; failed = false }))
      ≡ out_of publish_failed base
unfolding record_retries
retries_end now error [] base db = refl
retries_end now error (id ∷ ids) base db =
    retries_end now error ids base (record_retry_attempt now id error db)

publish_some-relayed :
    (env : RelayEnv) (rows events : List OutboxEvent)
    → closed (publish_some env events (record { base = rows; db = rows; failed = false }))
      ≡ relayed_batch env rows events
publish_some-relayed env rows [] = refl
publish_some-relayed env rows (e ∷ es) =
    elim (Bool-cases (env.sends (map (to_record env) (e ∷ es)))) [
      | inl sends ↦ elim (Bool-cases env.marks) [
        | inl marks ↦ rw (sends, marks)
        | inr lost ↦
            rw (sends, lost)
              (retries_fail env.now (env.message connection_lost) e.id (ids_of es) connection_lost
                rows rows)
      ]
      | inr refused ↦
          rw refused (retries_end env.now (env.message publish_failed) (ids_of (e ∷ es)) rows rows)
    ]

-- A batch ends in one of four ways. With nothing to fetch it gives 0. If Kafka refuses, it throws
-- and the table is as before, retry counts included. If Kafka accepts, the events are marked as
-- published and counted, or, when the update fails, the table is as before and the events are sent
-- again later.
pub process_batch-relayed :
    (env : RelayEnv) (rows : List OutboxEvent) (sent : List KafkaProducerRecord)
    → process_batch env rows sent ≡ (
        let (r, rows') = relayed_batch env rows (batch_of env rows) in
        (r, rows', sent ++ accepted env (batch_of env rows)))
unfolding process_batch relay_body
process_batch-relayed env rows sent =
    ap (λ (z : Outcome ℕ × List OutboxEvent). (z.0, z.1, sent ++ accepted env (batch_of env rows)))
      (publish_some-relayed env rows (batch_of env rows))

-- The id is in a record that Kafka has got.
abbrev pub was_sent : ℕ → List KafkaProducerRecord → Bool
was_sent id [] = false
was_sent id (r ∷ rs) = (r.headers.event_id == id) || was_sent id rs

-- What is marked as published has been sent.
abbrev pub IsDelivered : List KafkaProducerRecord → List OutboxEvent → Type 0
IsDelivered sent rows = All (λ e. is_published e.status ≡ true → was_sent e.id sent ≡ true) rows

was_sent-append :
    (id : ℕ) (xs ys : List KafkaProducerRecord)
    → was_sent id (xs ++ ys) ≡ (was_sent id xs || was_sent id ys)
was_sent-append id [] ys = refl
was_sent-append id (x ∷ xs) ys = ground (arith, was_sent-append id xs ys)

was_sent-map :
    (env : RelayEnv) (id : ℕ) (es : List OutboxEvent)
    → was_sent id (map (to_record env) es) ≡ elem id (ids_of es)
unfolding to_record
was_sent-map env id [] = refl
was_sent-map env id (e ∷ es) = ground (arith, was_sent-map env id es)

-- More that has been sent takes nothing back.
IsDelivered-more :
    (sent more : List KafkaProducerRecord) (rows : List OutboxEvent)
    → IsDelivered sent rows
    → IsDelivered (sent ++ more) rows
IsDelivered-more sent more [] h = tt
IsDelivered-more sent more (e ∷ rows) h =
    ((λ p. was_sent-append e.id sent more ∙ rw (h.0 p) refl), IsDelivered-more sent more rows h.1)

marked-IsDelivered :
    (env : RelayEnv) (events : List OutboxEvent) (sent : List KafkaProducerRecord)
    → (rows : List OutboxEvent) → IsDelivered sent rows
    → IsDelivered
        (sent ++ map (to_record env) events)
        (mark_as_published env.now (ids_of events) rows)
unfolding mark_as_published
marked-IsDelivered env [] sent rows h = IsDelivered-more sent [] rows h
marked-IsDelivered env (e ∷ es) sent rows h =
    let records = map (to_record env) (e ∷ es) in
    All-update_where
      (λ (x : OutboxEvent). is_published x.status ≡ true → was_sent x.id (sent ++ records) ≡ true)
      (λ x. elem x.id (ids_of (e ∷ es))) _ rows
      (λ x chosen old p.
        was_sent-append x.id sent records
        ∙ rw (was_sent-map env x.id (e ∷ es), chosen) (ground arith))
      (IsDelivered-more sent records rows h)

either_end :
    (P : List OutboxEvent → Type 0) (b : Bool) (r q : Outcome ℕ) (xs ys : List OutboxEvent)
    → P xs
    → P ys
    → P (if◌then◌else◌ {A = Outcome ℕ × List OutboxEvent} b (r, xs) (q, ys)).1
either_end P true r q xs ys hx hy = hx
either_end P false r q xs ys hx hy = hy

relayed_batch-IsDelivered :
    (env : RelayEnv) (rows events : List OutboxEvent) (sent : List KafkaProducerRecord)
    → IsDelivered sent rows
    → IsDelivered (sent ++ accepted env events) (relayed_batch env rows events).1
relayed_batch-IsDelivered env rows [] sent h = IsDelivered-more sent [] rows h
relayed_batch-IsDelivered env rows (e ∷ es) sent h =
    let events = e ∷ es in
    let records = map (to_record env) events in
    let marked_rows = mark_as_published env.now (ids_of events) rows in
    elim (Bool-cases (env.sends records)) [
      | inl sends ↦ rw sends (
          either_end (IsDelivered (sent ++ records)) env.marks (value (length events))
            (throw in_failed_transaction) marked_rows rows
            (marked-IsDelivered env events sent rows h) (IsDelivered-more sent records rows h))
      | inr refused ↦ rw refused (IsDelivered-more sent [] rows h)
    ]

-- If every event that is marked as published has been sent to Kafka, then that holds after a batch
-- too, however the batch ends: no event is published without having been sent.
pub process_batch-IsDelivered :
    (env : RelayEnv) (rows : List OutboxEvent) (sent : List KafkaProducerRecord)
    → IsDelivered sent rows
    → IsDelivered (process_batch env rows sent).2 (process_batch env rows sent).1
process_batch-IsDelivered env rows sent h =
    rw (process_batch-relayed env rows sent)
      (relayed_batch-IsDelivered env rows (batch_of env rows) sent h)

-- The delay of the polling loop stays between 100 ms and 2000 ms, whatever a batch gives.
pub next_delay_bounds :
    (r : Outcome ℕ) (delay : ℕ)
    → min_delay ≤ delay
    → delay ≤ max_delay
    → (min_delay ≤ next_delay r delay) × (next_delay r delay ≤ max_delay)
unfolding next_delay
next_delay_bounds (value processed) delay low high = ground arith
next_delay_bounds (throw e) delay low high = ground arith
