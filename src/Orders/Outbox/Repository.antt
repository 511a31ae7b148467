-- ===== src/Orders/Outbox/Repository.antt =====
-- apps/orders/src/outbox/outbox.repository.ts and outbox-retention.service.ts over the list of
-- events.
use ether_trade.Prelude.{
  ℕ, zero, suc, ◌+◌, ◌*◌, ◌-◌, Bool, false, not, ◌&&◌, ◌||◌, Option, none, some, List, [], ◌∷◌,
  ◌++◌, map, Text, ◌==◌, ltb, if◌then◌else◌, length, take, select_all, update_where,
}
use ether_trade.Orders.Outbox.Types.{published, failed, is_pending, is_published, OutboxEvent}

-- `currentTrace`
pub record TraceContext : Type 0 where
  pub traceparent : Option Text
  pub tracestate : Option Text

-- `a ?? b`
abbrev pub or_else : Option Text → Option Text → Option Text
or_else none b = b
or_else (some a) b = some a

abbrev pub with_trace : TraceContext → OutboxEvent → OutboxEvent
with_trace t e = record e {
  traceparent = or_else e.traceparent t.traceparent;
  tracestate = or_else e.tracestate t.tracestate;
}

unfoldable pub insert_event : TraceContext → OutboxEvent → List OutboxEvent → List OutboxEvent
insert_event t e rows = rows ++ with_trace t e ∷ []

unfoldable pub insert_many : TraceContext → List OutboxEvent → List OutboxEvent → List OutboxEvent
insert_many t [] rows = rows
insert_many t (e ∷ es) rows = rows ++ map (with_trace t) (e ∷ es)

-- What the database does for `fetchPendingBatch`: rows that another transaction has locked are
-- passed over, the others come by `created_at`.
pub record Fetch : Type 0 where
  pub is_locked : OutboxEvent → Bool
  pub oldest_first : List OutboxEvent → List OutboxEvent

unfoldable pub fetch_pending_batch : Fetch → ℕ → List OutboxEvent → List OutboxEvent
fetch_pending_batch f batch_size rows =
    take batch_size
      (f.oldest_first (select_all (λ e. is_pending e.status && not (f.is_locked e)) rows))

unfoldable pub count_pending : List OutboxEvent → ℕ
count_pending rows = length (select_all (λ e. is_pending e.status) rows)

abbrev pub elem : ℕ → List ℕ → Bool
elem id [] = false
elem id (i ∷ ids) = (i == id) || elem id ids

unfoldable pub mark_as_published : ℕ → List ℕ → List OutboxEvent → List OutboxEvent
mark_as_published now [] rows = rows
mark_as_published now (i ∷ ids) rows =
    update_where (λ e. elem e.id (i ∷ ids)) (λ e. record e { status = published; updated_at = now })
      rows

unfoldable pub mark_as_failed : ℕ → ℕ → Text → List OutboxEvent → List OutboxEvent
mark_as_failed now id error rows =
    update_where (λ e. e.id == id)
      (λ e. record e {
        status = failed;
        last_error = some error;
        retry_count = e.retry_count + 1;
        updated_at = now;
      })
      rows

unfoldable pub record_retry_attempt : ℕ → ℕ → Text → List OutboxEvent → List OutboxEvent
record_retry_attempt now id error rows =
    update_where (λ e. e.id == id)
      (λ e. record e { last_error = some error; retry_count = e.retry_count + 1; updated_at = now })
      rows

-- Published, and older than the cutoff.
abbrev pub expired : ℕ → OutboxEvent → Bool
expired cutoff e = is_published e.status && ltb e.created_at cutoff

-- The rows that are kept and the number of those that are deleted: the first `limit` of the
-- published ones that are older, in the order in which the database finds them.
unfoldable pub delete_published_events_older_than : ℕ → ℕ → List OutboxEvent → List OutboxEvent × ℕ
delete_published_events_older_than cutoff limit [] = ([], 0)
delete_published_events_older_than cutoff zero (e ∷ rows) = (e ∷ rows, 0)
delete_published_events_older_than cutoff (suc limit) (e ∷ rows) =
    let (kept, deleted) = delete_published_events_older_than cutoff limit rows in
    let (others, later) = delete_published_events_older_than cutoff (suc limit) rows in
    if expired cutoff e then (kept, deleted + 1) else (e ∷ others, later)

-- `cleanPublishedEvents`: batches of a thousand until one is not full, on fuel.
unfoldable pub clean : ℕ → ℕ → List OutboxEvent → ℕ → Option (List OutboxEvent × ℕ)
unfolding delete_published_events_older_than
clean zero cutoff rows total = none
clean (suc fuel) cutoff rows total =
    let (kept, deleted) = delete_published_events_older_than cutoff 1000 rows in
    let again = clean fuel cutoff kept (total + deleted) in
    if deleted == 1000 then again else some (kept, total + deleted)

unfoldable pub clean_published_events : ℕ → List OutboxEvent → Option (List OutboxEvent × ℕ)
unfolding clean
clean_published_events now rows = clean (length rows + 1) (now - 48 * 60 * 60 * 1000) rows 0
